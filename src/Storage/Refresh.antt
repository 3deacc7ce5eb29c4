-- ===== src/Storage/Refresh.antt =====
-- `_refresh_timestamps`, `_init_timestamp_index` and `_prepare_timestamp_query` of
-- src/dbus_event_log/storage.py.
use mathlib.Core.Option
use dbus_event_log.Prelude.{
  ℕ, zero, suc, String, Bool, true, false, not, ◌&&◌, ◌||◌, Option, none, some, List, [], ◌∷◌, any,
  length, take, str_eq, if◌then◌else◌, string_eq, is_some,
}
use dbus_event_log.Storage.Time.{Formats, utc_timestamp}
use dbus_event_log.Storage.Tables.{Row, TimeEntry, Index, Database, find_event, dirty_entry}

-- `… JOIN events … WHERE dirty = 1`
unfoldable pub is_pending : List Row → String × TimeEntry → Bool
is_pending events (k, e) = e.dirty && is_some (find_event k events)

unfoldable pub pending_ids : List Row → Index → List String
pending_ids events [] = []
pending_ids events (x ∷ rest) =
    let others = pending_ids events rest in if is_pending events x then x.0 ∷ others else others

abbrev pub batch_size : ℕ
batch_size = 512

-- The new value of an entry: the event is in the join, so it is there.
unfoldable pub event_utc : Formats → List Row → String → Option ℕ
event_utc f events k = elim (find_event k events) [
  | none ↦ none
  | some r ↦ utc_timestamp f r.timestamp
]

-- `UPDATE event_timestamps SET utc_timestamp = ?, dirty = 0 WHERE event_id = ?`, for all of `ids`
unfoldable pub write_batch : Formats → List Row → List String → Index → Index
write_batch f events ids [] = []
write_batch f events ids ((k, e) ∷ rest) =
    (
      k,
      if any (str_eq k) ids
          then record { utc_timestamp = event_utc f events k; dirty = false }
          else e,
    )
    ∷ write_batch f events ids rest

-- `while True`, on fuel.
unfoldable pub refresh_loop : Formats → List Row → ℕ → Index → Index
refresh_loop f events zero index = index
refresh_loop f events (suc fuel) index = elim (take batch_size (pending_ids events index)) [
  | [] ↦ index
  | id ∷ ids ↦ refresh_loop f events fuel (write_batch f events (id ∷ ids) index)
]

-- The tables after a refresh, of a database that has the index; one round for each entry is enough.
unfoldable pub refresh_tables : Formats → Database → Database
refresh_tables f db = record db {
  index = Option.map (λ i. refresh_loop f db.events (suc (length i)) i) db.index;
}

-- `_refresh_timestamps`: without `event_timestamps` its SELECT raises.
unfoldable pub refresh : Formats → Database → Option Database
refresh f db = if is_some db.index then some (refresh_tables f db) else none

-- `INSERT INTO event_timestamps(event_id) SELECT id FROM events WHERE id IS NOT NULL`
unfoldable pub new_index : List Row → Index
new_index [] = []
new_index (r ∷ rest) = elim r.id [
  | none ↦ new_index rest
  | some k ↦ (k, dirty_entry) ∷ new_index rest
]

abbrev pub create_index : Database → Database
create_index db = elim db.index [
  | none ↦ record db { index = some (new_index db.events) }
  | some i ↦ db
]

-- `_init_timestamp_index`
unfoldable pub init_timestamp_index : Formats → Database → Database
init_timestamp_index f db = refresh_tables f (create_index db)

unfoldable pub has_null_id : List Row → Bool
has_null_id [] = false
has_null_id (r ∷ rest) = not (is_some r.id) || has_null_id rest

-- `_prepare_timestamp_query`: the tables, and whether the index may be used. Without the index
-- nothing changes, and `source` raises.
unfoldable pub prepare_timestamp_query : Formats → Database → Database × Bool
prepare_timestamp_query f db =
    if has_null_id db.events then (db, false) else (refresh_tables f db, true)
