-- ===== src/Commands/Store.antt =====
-- The commands `cleanup`, `rotate` and `vacuump` of src/dbus_event_log/cli.py.
use dbus_event_log.Prelude.{
  ℕ, ◌-◌, ◌*◌, ◌≤◌, ◌<◌, ◌≡◌, refl, Bool, true, false, ◌||◌, Option, none, some, ◌==◌,
  if◌then◌else◌, if_elim, arith,
}
use dbus_event_log.Event.{pos}
use dbus_event_log.Storage.Time.{Formats}
use dbus_event_log.Storage.Tables.{Database}
use dbus_event_log.Storage.Files.{
  Result as StorageResult, ok as stored_ok, err as stored_err, Files, present, RotationEnv,
}
use dbus_event_log.Storage.Files.Retention.{
  microseconds_per_day, is_expired, Cleaned, cleanup-Cleaned,
}
use dbus_event_log.Storage.Files as Storage
use dbus_event_log.Storage.Files.Retention
use dbus_event_log.Commands.{
  Result, ok, err, Opened, sqlite_storage, timescale_storage, storage_failed,
}

-- What `cleanup` says.
pub data CleanupReport : Type 0 where
  not_available disabled cancelled : CleanupReport
  deleted : ℕ → CleanupReport

-- The retention that applies; the option is never negative.
abbrev pub days_of : Option ℕ → Files → ℕ
days_of none files = files.config.retention_days
days_of (some days) files = days

abbrev pub deleted_report : StorageResult ℕ × Files → Result CleanupReport × Opened
deleted_report (stored_ok n, files) = (ok (deleted n), sqlite_storage files)
deleted_report (stored_err e, files) = (err (storage_failed e), sqlite_storage files)

abbrev pub cleanup_files : Formats → ℕ → Bool → ℕ → Files → Result CleanupReport × Opened
cleanup_files f days confirmed now files =
    if days == 0
    then (ok disabled, sqlite_storage files)
    else if confirmed
    then deleted_report (Retention.cleanup f (some (pos days)) now files)
    else (ok cancelled, sqlite_storage files)

-- `cleanup`, with the option `yes` and the answer to the prompt.
unfoldable pub cleanup :
    Formats → Option ℕ → Bool → Bool → ℕ → Opened → Result CleanupReport × Opened
cleanup f days assumed answer now (timescale_storage t) = (ok not_available, timescale_storage t)
cleanup f days assumed answer now (sqlite_storage files) =
    cleanup_files f (days_of days files) (assumed || answer) now files

pub data RotateReport : Type 0 where
  unsupported not_required : RotateReport
  rotated_to : ℕ → RotateReport

abbrev rotated : Storage.Result (Option ℕ) × Files → Result RotateReport × Opened
rotated (stored_ok none, files) = (ok not_required, sqlite_storage files)
rotated (stored_ok (some n), files) = (ok (rotated_to n), sqlite_storage files)
rotated (stored_err e, files) = (err (storage_failed e), sqlite_storage files)

-- `rotate`
unfoldable pub rotate : Formats → RotationEnv → Opened → Result RotateReport × Opened
rotate f env (timescale_storage t) = (ok unsupported, timescale_storage t)
rotate f env (sqlite_storage files) = rotated (Storage.rotate f env files)

-- `vacuump`
unfoldable pub vacuump : Opened → Opened
vacuump (timescale_storage t) = timescale_storage t
vacuump (sqlite_storage files) = sqlite_storage (Retention.vacuum files)

-- A cleanup that was not asked for changes nothing; one that was does what retention promises.
pub data IsGuarded (f : Formats) (days now : ℕ) (confirmed : Bool) (files : Files)
    : Result CleanupReport × Opened → Type 0 where
  off : days ≡ 0 → IsGuarded f days now confirmed files (ok disabled, sqlite_storage files)
  refused :
      0 < days
      → confirmed ≡ false
      → IsGuarded f days now confirmed files (ok cancelled, sqlite_storage files)
  cleaned :
      (n : ℕ) (after : Files)
      → confirmed ≡ true
      → 0 < days
      → Cleaned (is_expired f (now - days * microseconds_per_day)) files (stored_ok n, after)
      → IsGuarded f days now confirmed files (ok (deleted n), sqlite_storage after)

deleted_report-IsGuarded :
    (f : Formats) (days now : ℕ) (confirmed : Bool) (files : Files) (r : StorageResult ℕ × Files)
    → confirmed ≡ true
    → 0 < days
    → Cleaned (is_expired f (now - days * microseconds_per_day)) files r
    → IsGuarded f days now confirmed files (deleted_report r)
deleted_report-IsGuarded f days now confirmed files (stored_ok n, after) assumed some_days c =
    cleaned n after assumed some_days c
deleted_report-IsGuarded f days now confirmed files (stored_err e, after) assumed some_days c =
    absurd (ground (arith, c.counted))

-- `cleanup` on a store whose active database exists: a retention of no days is disabled and changes
-- nothing; one of at least a day that neither the option nor the prompt confirms is cancelled and
-- changes nothing; one that is confirmed deletes exactly the rows that are older than the retention
-- and reports their number. The hypothesis on the days: the cutoff is not before the year 1.
pub cleanup-IsGuarded :
    (f : Formats) (days : Option ℕ) (assumed answer : Bool) (now : ℕ) (files : Files)
    (db : Database)
    → files.active ≡ present db
    → days_of days files * microseconds_per_day ≤ now
    → IsGuarded f
        (days_of days files)
        now
        (assumed || answer)
        files
        (cleanup f days assumed answer now (sqlite_storage files))
unfolding cleanup
cleanup-IsGuarded f days assumed answer now files db active fits =
    let d = days_of days files in
    let confirmed = assumed || answer in
    if_elim (IsGuarded f d now confirmed files) (d == 0)
      (λ none_given. off (ground (arith, none_given)))
      (λ some_days.
        let positive : 0 < d = ground (arith, some_days) in
        if_elim (IsGuarded f d now confirmed files) confirmed
          (λ asked.
            deleted_report-IsGuarded f d now confirmed files
              (Retention.cleanup f (some (pos d)) now files) asked positive
              (cleanup-Cleaned f (some (pos d)) d now files db active refl positive fits))
          (λ denied. refused positive denied))
