-- ===== src/Tests/Storage.antt =====
-- The SQLite backend of src/dbus_event_log/storage.py at concrete inputs: a store with an old and a
-- new event in the active database, and an old one in an archive.
use dbus_event_log.Prelude.{ℕ, ◌≡◌, refl, true, false, none, some, [], ◌∷◌, arith, string_eq, ◌⊎◌}
use dbus_event_log.Dict
use dbus_event_log.Config.{default_storage}
use dbus_event_log.Event.{DBusEvent, Extra, pos}
use dbus_event_log.Event.Kinds.{EventType}
use dbus_event_log.Tests.Rows.{formats, stored, old_row, new_row, odd_row, with_old, with_both}
use dbus_event_log.Storage.Tables.{
  Database, Index, find_event, update_row, forget, dirty_entry, insert_row, insert_rows, row_of,
  mark_dirty,
}
use dbus_event_log.Storage.Files.{
  Files, RotationEnv, present, rotate, ok, insert, rotate_full, replace_active, prune_archives,
  commit_rows, init_schema,
}
use dbus_event_log.Storage.Refresh.{init_timestamp_index, refresh, refresh_tables}
use dbus_event_log.Storage.Index.{recomputed}
use dbus_event_log.Storage.Writes.{
  IsConsistent, inserted, updated, begin, next, refresh_always_recomputes,
}
use dbus_event_log.Storage.Files.Insertion.{Stored, insert-Stored}
use dbus_event_log.Storage.Files.Rotation.{Rotated, rotate_cases}
use dbus_event_log.Storage.Files.Retention.{cleanup, cleanup-Cleaned, Cleaned, is_expired}

abbrev active_database : Database
active_database = record {
  version = 2 ∷ [];
  events = old_row ∷ new_row ∷ odd_row ∷ [];
  index = none;
}

abbrev store : Files
store = record {
  config = record default_storage { rotation_size_mb = 1; rotation_max_archives = 1 };
  active = present active_database;
  archives =
      record {
        number = 7;
        content = record {
          version = 2 ∷ [];
          events = stored "d" "0001-01-01T00:00:00+00:00" ∷ [];
          index = none;
        };
      }
      ∷ [];
  occupied = 9 ∷ [];
}

-- The clock is behind, and a link takes the number 9.
abbrev env : RotationEnv
env = record {
  time_ns = 9;
  size = 2_000_000;
  is_busy = false;
  mode_is_delete = true;
  has_sidecars = false;
  replace_works = true;
}

cleanup-Cleaned_example :
    Cleaned
      (is_expired formats 86_400_000_000)
      store
      (cleanup formats (some (pos 7)) 691_200_000_000 store)
cleanup-Cleaned_example =
    cleanup-Cleaned formats (some (pos 7)) 7 691_200_000_000 store active_database refl refl
      (omega arith) (omega arith)

rotate_cases_example :
    ((rotate formats env store).1 ≡ store)
    ⊎ ((n : ℕ) × ((rotate formats env store).0 ≡ ok (some n))
        × Rotated formats store n (rotate formats env store).1)
rotate_cases_example = rotate_cases formats env store ((tt, tt))

abbrev fresh_database : Database
fresh_database = record { version = 2 ∷ []; events = []; index = some [] }

old_inserted : insert_row old_row fresh_database ≡ some with_old
unfolding insert_row find_event mark_dirty Dict.remove
old_inserted = refl

new_inserted : insert_row new_row with_old ≡ some with_both
unfolding insert_row find_event mark_dirty Dict.remove
new_inserted = refl

fresh-IsConsistent : IsConsistent formats fresh_database
unfolding Dict.get find_event
fresh-IsConsistent = record { keyed = tt; synced = λ k. tt }

-- One row gets another id.
abbrev renamed : Database
renamed = record {
  version = 2 ∷ [];
  events = record old_row { id = some "c" } ∷ new_row ∷ [];
  index = some (("c", dirty_entry) ∷ ("b", dirty_entry) ∷ []);
}

old_renamed : update_row 0 (some "c") old_row.timestamp with_both ≡ some renamed
unfolding update_row forget mark_dirty find_event Dict.remove
old_renamed = refl

refresh_always_recomputes_example :
    (after : Index) × (refresh formats renamed ≡ some (record renamed { index = some after }))
    × (Dict.get "a" after ≡ recomputed formats (find_event "a" renamed.events))
refresh_always_recomputes_example =
    refresh_always_recomputes formats fresh_database renamed
      (("c", dirty_entry) ∷ ("b", dirty_entry) ∷ []) "a" fresh-IsConsistent
      (next (next (next begin (inserted old_row old_inserted)) (inserted new_row new_inserted))
        (updated 0 (some "c") old_row.timestamp old_renamed))
      refl

-- An event that comes while the store is above its limit.
abbrev next_event : DBusEvent
next_event = record {
  id = 5;
  timestamp = 0;
  event_type = EventType.property_changed;
  service_name = "com.victronenergy.battery";
  object_path = "/Soc";
  interface = none;
  member = none;
  signal_type = none;
  arguments = [];
  kwargs = Extra.empty;
  source_unique_name = none;
  destination_unique_name = none;
  message_serial = none;
  error_name = none;
  error_message = none;
  state_from = none;
  state_to = none;
}

insert_runs : (insert formats env next_event store).0 ≡ ok tt
insert_runs =
    unfold insert row_of rotate rotate_full replace_active prune_archives commit_rows insert_rows
      insert_row init_schema init_timestamp_index refresh refresh_tables find_event in
    refl

insert-Stored_example :
    Stored "00000000-0000-0000-0000-000000000000"
      (row_of formats next_event)
      (rotate formats env store).1
      (insert formats env next_event store).1
insert-Stored_example = insert-Stored formats env next_event store insert_runs
