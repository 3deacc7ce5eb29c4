-- ===== src/Commands.antt =====
-- src/dbus_event_log/cli.py: the commands on the store. `Times` is `_parse_time`, `Store` the
-- commands that change the files, `Reading` those that read them, `Output` what is printed or
-- written. Click's parsing of options, and what is printed in words, are left out.
pub mod Times
pub mod Store
pub mod Reading
pub mod Output
use dbus_event_log.Prelude.{ℕ, String, Bool, Option, none, some, if◌then◌else◌, List}
use dbus_event_log.Config.{StorageConfig, Backend, sqlite, timescaledb}
use dbus_event_log.Event.{ℤ}
use dbus_event_log.Storage.Time.{Formats}
use dbus_event_log.Storage.Files.{
  Result as StorageResult, ok as stored_ok, err as stored_err, Files, Active, missing, blank,
  present, StorageError, new_database, init_schema,
}
use dbus_event_log.Timescale.{
  Result as TimescaleResult, ok as timescale_ok, err as timescale_err, UrlLib, Timescale,
  TimescaleError, new_timescale,
}

pub data CliError : Type 0 where
  bad_time time_out_of_range symbolic_link : CliError
  storage_failed : StorageError → CliError
  timescale_failed : TimescaleError → CliError

pub data Result {ℓ} (A : Type ℓ) : Type ℓ where
  ok : A → Result A
  err : CliError → Result A

abbrev pub of_storage {ℓ} : {A : Type ℓ} → StorageResult A → Result A
of_storage (stored_ok a) = ok a
of_storage (stored_err e) = err (storage_failed e)

abbrev pub of_timescale {ℓ} : {A : Type ℓ} → TimescaleResult A → Result A
of_timescale (timescale_ok a) = ok a
of_timescale (timescale_err e) = err (timescale_failed e)

-- What `get_storage` returns, with the files of a SQLite backend.
pub data Opened : Type 0 where
  sqlite_storage : Files → Opened
  timescale_storage : Timescale → Opened

-- `_init_schema` of the active path: connecting to a missing one makes it.
abbrev pub opened_active : Formats → Active → Active
opened_active f missing = present (new_database f)
opened_active f blank = present (new_database f)
opened_active f (present db) = present (init_schema f db)

-- `SQLiteStorage.__init__`
unfoldable pub open_sqlite : Formats → Bool → Files → Result Opened
open_sqlite f is_symlink files =
    if is_symlink
    then err symbolic_link
    else ok (sqlite_storage (record files { active = opened_active f files.active }))

abbrev timescale_opened : TimescaleResult Timescale → Result Opened
timescale_opened (timescale_ok t) = ok (timescale_storage t)
timescale_opened (timescale_err e) = err (timescale_failed e)

-- `get_storage`
unfoldable pub get_storage : Formats → UrlLib → Bool → Files → Result Opened
get_storage f lib is_symlink files = elim files.config.backend [
  | sqlite ↦ open_sqlite f is_symlink files
  | timescaledb ↦ timescale_opened (new_timescale lib files.config)
]
