-- ===== src/Storage/Files.antt =====
-- `SQLiteStorage` of src/dbus_event_log/storage.py as the owner of files: the active database and
-- its numbered archives. All methods hold the flock, so each is one step. What the file system, the
-- clock and SQLite's WAL answer is an argument.
pub mod Rotation
pub mod Retention
pub mod Insertion
use dbus_event_log.Prelude.{
  ℕ, zero, suc, ◌+◌, ◌-◌, ◌*◌, String, Bool, true, false, not, Option, none, some, List, [], ◌∷◌,
  ◌++◌, any, length, drop, ltb, ◌==◌, ◌||◌, max, if◌then◌else◌,
}
use dbus_event_log.Config.{StorageConfig}
use dbus_event_log.Event.{DBusEvent, ℤ, pos, negsuc}
use dbus_event_log.Storage.Time.{Formats, utc_timestamp}
use dbus_event_log.Storage.Tables.{
  Row, Database, row_of, insert_row, insert_rows, delete_rows, count_doomed,
}
use dbus_event_log.Storage.Refresh.{refresh, init_timestamp_index}

-- The active path: no file, a file without tables (which opening a missing one leaves), or the
-- database.
pub data Active : Type 0 where
  missing blank : Active
  present : Database → Active

-- `<name>.archive.<number>.db`
pub record Archive : Type 0 where
  pub number : ℕ
  pub content : Database

-- `archives` are the regular files with a numbered name, in the order of `archive_paths`;
-- `occupied` are numbers whose path something else takes, such as a symbolic link.
pub record Files : Type 0 where
  pub config : StorageConfig
  pub active : Active
  pub archives : List Archive
  pub occupied : List ℕ

pub data StorageError : Type 0 where
  integrity_error checkpoint_busy wal_open sidecars_remain replace_failed : StorageError
  no_such_table negative_retention unrepresentable_cutoff invalid_timestamp : StorageError

pub data Result {ℓ} (A : Type ℓ) : Type ℓ where
  ok : A → Result A
  err : StorageError → Result A

-- What one rotation meets: the clock, the size of the database with its WAL, the answers of the
-- checkpoint and of the change of journal mode, left-over sidecar files, and whether the
-- replacement can be moved into place.
pub record RotationEnv : Type 0 where
  pub time_ns : ℕ
  pub size : ℕ
  pub is_busy : Bool
  pub mode_is_delete : Bool
  pub has_sidecars : Bool
  pub replace_works : Bool

-- `SCHEMA_VERSION`
abbrev pub schema_version : ℕ
schema_version = 2

abbrev insert_version : List ℕ → List ℕ
insert_version versions =
    if any (λ v. v == schema_version) versions then versions else versions ++ schema_version ∷ []

abbrev current_versions : List ℕ → List ℕ
current_versions [] = []
current_versions (v ∷ rest) =
    let others = current_versions rest in if ltb v schema_version then others else v ∷ others

-- `_init_schema` on an existing database.
unfoldable pub init_schema : Formats → Database → Database
init_schema f db =
    init_timestamp_index f (record db { version = current_versions (insert_version db.version) })

abbrev pub empty_database : Database
empty_database = record { version = []; events = []; index = none }

-- `_init_schema` on a new file.
abbrev pub new_database : Formats → Database
new_database f = init_schema f empty_database

abbrev pub has_events : Database → Bool
has_events db = elim db.events [ [] ↦ false | _ ↦ true ]

abbrev pub last_number : List Archive → ℕ
last_number [] = 0
last_number (a ∷ []) = a.number
last_number (a ∷ b ∷ rest) = last_number (b ∷ rest)

-- A file or a symbolic link stands at the path.
unfoldable pub is_used : List Archive → List ℕ → ℕ → Bool
is_used archives occupied n =
    any (λ (a : Archive). a.number == n) archives || any (λ m. m == n) occupied

-- `while True: … sequence += 1`, on fuel.
unfoldable pub free_number : ℕ → List Archive → List ℕ → ℕ → ℕ
free_number zero archives occupied n = n
free_number (suc fuel) archives occupied n = elim (is_used archives occupied n) [
  | true ↦ free_number fuel archives occupied (n + 1)
  | false ↦ n
]

abbrev pub largest : List ℕ → ℕ
largest [] = 0
largest (n ∷ rest) = max n (largest rest)

-- The first number that is tried: later than every archive.
abbrev pub first_number : RotationEnv → List Archive → ℕ
first_number env archives = max env.time_ns (last_number archives + 1)

-- The fuel reaches beyond everything that is there.
unfoldable pub archive_number : RotationEnv → Files → ℕ
archive_number env s =
    free_number (suc (largest s.occupied)) s.archives s.occupied (first_number env s.archives)

-- `_prune_archives`
unfoldable pub prune_archives : Files → Files
prune_archives s = record s {
  archives = drop (length s.archives - s.config.rotation_max_archives) s.archives;
}

-- The part of `rotate` that moves files: a new empty database takes the active path; where that
-- fails the archive is moved back.
unfoldable pub replace_active : Formats → RotationEnv → Database → Files → Result (Option ℕ) × Files
replace_active f env db s =
    let n = archive_number env s in
    if env.replace_works
    then (
      ok (some n),
      prune_archives (record s {
        active = present (new_database f);
        archives = s.archives ++ record { number = n; content = db } ∷ [];
      }),
    )
    else (err replace_failed, s)

abbrev pub rotation_limit : StorageConfig → ℕ
rotation_limit c = c.rotation_size_mb * 1024 * 1024

-- `rotate` on an existing database above the limit. An empty one is vacuumed.
unfoldable pub rotate_full : Formats → RotationEnv → Database → Files → Result (Option ℕ) × Files
rotate_full f env db s =
    if not (has_events db)
    then (ok none, s)
    else if env.is_busy
    then (err checkpoint_busy, s)
    else if not env.mode_is_delete
    then (err wal_open, s)
    else if env.has_sidecars
    then (err sidecars_remain, s)
    else replace_active f env db s

-- `rotate` on a file that is there.
abbrev pub rotate_active : Formats → RotationEnv → Active → Files → Result (Option ℕ) × Files
rotate_active f env missing s = (ok none, s)
rotate_active f env blank s = (err no_such_table, s)
rotate_active f env (present db) s = rotate_full f env db s

abbrev pub is_missing : Active → Bool
is_missing missing = true
is_missing blank = false
is_missing (present db) = false

-- `rotate`
unfoldable pub rotate : Formats → RotationEnv → Files → Result (Option ℕ) × Files
rotate f env s =
    if rotation_limit s.config == 0 || is_missing s.active
    then (ok none, s)
    else if ltb env.size (rotation_limit s.config)
    then (ok none, s)
    else rotate_active f env s.active s

abbrev pub stored_tables : Files → Option Database → Result (Unit {0}) × Files
stored_tables s none = (err no_such_table, s)
stored_tables s (some db) = (ok tt, record s { active = present db })

abbrev pub committed : Formats → Files → Option Database → Result (Unit {0}) × Files
committed f s none = (err integrity_error, s)
committed f s (some db) = stored_tables s (refresh f db)

-- The INSERT of one transaction, with the refresh of the index. Connecting to a missing file
-- makes a blank one.
unfoldable pub commit_rows : Formats → List Row → Files → Result (Unit {0}) × Files
commit_rows f rows s = elim s.active [
  | missing ↦ (err no_such_table, record s { active = blank })
  | blank ↦ (err no_such_table, s)
  | present db ↦ committed f s (insert_rows rows db)
]

abbrev pub rows_of : Formats → List DBusEvent → List Row
rows_of f [] = []
rows_of f (e ∷ rest) = row_of f e ∷ rows_of f rest

abbrev pub after_rotation :
    Result (Option ℕ) × Files → (Files → Result (Unit {0}) × Files) → Result (Unit {0}) × Files
after_rotation (ok o, s) rest = rest s
after_rotation (err e, s) rest = (err e, s)

-- `insert_batch`; `insert` is the batch of one event.
unfoldable pub insert_batch :
    Formats → RotationEnv → List DBusEvent → Files → Result (Unit {0}) × Files
insert_batch f env [] s = (ok tt, s)
insert_batch f env (e ∷ rest) s =
    after_rotation (rotate f env s) (commit_rows f (rows_of f (e ∷ rest)))

unfoldable pub insert : Formats → RotationEnv → DBusEvent → Files → Result (Unit {0}) × Files
insert f env e s = after_rotation (rotate f env s) (commit_rows f (rows_of f (e ∷ [])))
