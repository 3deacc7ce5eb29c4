-- ===== src/Commands/Reading.antt =====
-- The commands `query`, `stats` and `export` of src/dbus_event_log/cli.py: what they read from the
-- store. Their filters come from options; `since` and `until` are parsed one after the other.
pub mod Recent
pub mod Complete
pub mod Statistics
pub mod Closing
use dbus_event_log.Prelude.{
  ℕ, ◌≡◌, String, Bool, true, false, Option, none, some, List, [], ◌∷◌, length, if◌then◌else◌,
}
use dbus_event_log.Event.{ℤ, pos}
use dbus_event_log.Event.Kinds.{EventType}
use dbus_event_log.Storage.Time.{Formats}
use dbus_event_log.Storage.Tables.{Row}
use dbus_event_log.Storage.Files.{
  Result as StorageResult, ok as stored_ok, err as stored_err, Files,
}
use dbus_event_log.Storage.Query.{Sqlite, Filters}
use dbus_event_log.Storage.Query
use dbus_event_log.Storage.Distinct
use dbus_event_log.Timescale.{UrlLib}
use dbus_event_log.Timescale.{Result as TimescaleResult, ok as timescale_ok, err as timescale_err}
use dbus_event_log.Timescale.Pool.{PoolEnv, Session, ServerRow, close}
use dbus_event_log.Timescale.Statement.{Statement}
use dbus_event_log.Timescale.Fetch
use dbus_event_log.Commands.{Result, ok, err, CliError, Opened, of_storage, of_timescale}
use dbus_event_log.Commands.Times.{TimeLib, parse_option}

-- The options of `query`.
pub record QueryOptions : Type 0 where
  pub since : Option String
  pub until : Option String
  pub service : Option String
  pub event_type : Option EventType
  pub limit : ℤ
  pub offset : ℤ

abbrev pub filters_from :
    QueryOptions → Result (Option String) → Result (Option String) → Result Filters
filters_from o (err e) until = err e
filters_from o (ok start) (err e) = err e
filters_from o (ok start) (ok end_) = ok (record {
  start_time = start;
  end_time = end_;
  service = o.service;
  event_type = o.event_type;
  limit = o.limit;
  offset = o.offset;
})

-- `filters`; the clock is read for each of the two times.
unfoldable pub filters_of : Formats → TimeLib → ℕ → ℕ → QueryOptions → Result Filters
filters_of f lib now later o =
    filters_from o (parse_option f lib now o.since) (parse_option f lib later o.until)

abbrev pub query_files : Formats → Sqlite → Files → Result Filters → Result (List Row) × Files
query_files f s files (err e) = (err e, files)
query_files f s files (ok q) = let r = Query.query f s q files in (of_storage r.0, r.1)

-- `query` on a SQLite storage
unfoldable pub query_sqlite :
    Formats → Sqlite → TimeLib → ℕ → ℕ → QueryOptions → Files → Result (List Row) × Files
query_sqlite f s lib now later o files = query_files f s files (filters_of f lib now later o)

-- `_query_timescale`: the pool is closed whether the query returns or raises.
unfoldable pub query_timescale :
    Formats
    → UrlLib
    → PoolEnv
    → (Statement → Option (List ServerRow))
    → Filters
    → Session
    → TimescaleResult (List ServerRow) × Session
query_timescale f lib env answer q s = let r = Fetch.query f lib env answer q s in (r.0, close r.1)

-- The largest export.
abbrev pub export_limit : ℕ
export_limit = 100000

-- The options of `export`, but for the path.
pub record ExportOptions : Type 0 where
  pub since : Option String
  pub until : Option String
  pub service : Option String
  pub event_type : Option EventType
  pub is_json : Bool

-- The call of `query`.
abbrev pub export_query : ExportOptions → QueryOptions
export_query o = record {
  since = o.since;
  until = o.until;
  service = o.service;
  event_type = o.event_type;
  limit = pos export_limit;
  offset = pos 0;
}

-- What is written to the file: nothing for a CSV file without events.
pub data Written : Type 0 where
  json_file : List Row → Written
  csv_file : List Row → Written
  no_file : Written

abbrev pub written : Bool → Result (List Row) → Result Written
written is_json (err e) = err e
written true (ok rows) = ok (json_file rows)
written false (ok []) = ok no_file
written false (ok (r ∷ rest)) = ok (csv_file (r ∷ rest))

-- `export` on a SQLite storage
unfoldable pub export :
    Formats → Sqlite → TimeLib → ℕ → ℕ → ExportOptions → Files → Result Written × Files
export f s lib now later o files =
    let r = query_sqlite f s lib now later (export_query o) files in (written o.is_json r.0, r.1)
