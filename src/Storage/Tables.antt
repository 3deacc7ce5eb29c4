-- ===== src/Storage/Tables.antt =====
-- The tables of src/dbus_event_log/storage.py and the statements that write them. The triggers keep
-- a dirty entry of `event_timestamps` for each row that a writer, also another program, adds or
-- changes.
use mathlib.Core.Option
use dbus_event_log.Prelude.{
  ℕ, suc, String, Bool, true, false, Option, none, some, List, [], ◌∷◌, ◌++◌, if◌then◌else◌,
  string_eq, is_some, take, drop,
}
use dbus_event_log.Dict
use dbus_event_log.Event.{DBusEvent}
use dbus_event_log.Event.Kinds.{event_type_value, signal_type_value}
use dbus_event_log.Capture.{is_text}
use dbus_event_log.Storage.Time.{Formats}

-- A row of `events`; old raw writers could store a NULL id.
pub record Row : Type 0 where
  pub id : Option String
  pub timestamp : String
  pub event_type : String
  pub service_name : String
  pub object_path : String
  pub interface : Option String
  pub member : Option String
  pub signal_type : Option String
  pub arguments : String
  pub kwargs : String
  pub source_unique_name : Option String
  pub destination_unique_name : Option String
  pub message_serial : Option ℕ
  pub error_name : Option String
  pub error_message : Option String
  pub state_from : Option String
  pub state_to : Option String

-- A row of `event_timestamps` behind its key `event_id`.
pub record TimeEntry : Type 0 where
  pub utc_timestamp : Option ℕ
  pub dirty : Bool

abbrev pub Index : Type 0
Index = List (String × TimeEntry)

pub record Database : Type 0 where
  pub version : List ℕ
  pub events : List Row
  pub index : Option Index

-- The values of the INSERT statement.
unfoldable pub row_of : Formats → DBusEvent → Row
row_of f e = record {
  id = some (f.uuid_text e.id);
  timestamp = f.isoformat e.timestamp;
  event_type = event_type_value e.event_type;
  service_name = e.service_name;
  object_path = e.object_path;
  interface = e.interface;
  member = e.member;
  signal_type = Option.map signal_type_value e.signal_type;
  arguments = f.json_arguments e.arguments;
  kwargs = f.json_kwargs e.kwargs;
  source_unique_name = e.source_unique_name;
  destination_unique_name = e.destination_unique_name;
  message_serial = e.message_serial;
  error_name = e.error_name;
  error_message = e.error_message;
  state_from = e.state_from;
  state_to = e.state_to;
}

-- The row with an id; the primary key lets at most one have it.
unfoldable pub find_event : String → List Row → Option Row
find_event k [] = none
find_event k (r ∷ rest) = if is_text r.id k then some r else find_event k rest

-- The defaults of a new entry.
abbrev pub dirty_entry : TimeEntry
dirty_entry = record { utc_timestamp = none; dirty = true }

-- `DELETE …; INSERT INTO event_timestamps(event_id) SELECT NEW.id WHERE NEW.id IS NOT NULL`
unfoldable pub mark_dirty : Option String → Index → Index
mark_dirty none index = index
mark_dirty (some k) index = (k, dirty_entry) ∷ Dict.remove k index

unfoldable pub forget : Option String → Index → Index
forget none index = index
forget (some k) index = Dict.remove k index

abbrev pub is_taken : Option String → List Row → Bool
is_taken none rows = false
is_taken (some k) rows = is_some (find_event k rows)

-- `INSERT INTO events`, with the trigger `events_timestamp_insert`; `none` is the IntegrityError
-- of a duplicate key.
unfoldable pub insert_row : Row → Database → Option Database
insert_row r db =
    if is_taken r.id db.events
    then none
    else some
        (record db { events = db.events ++ r ∷ []; index = Option.map (mark_dirty r.id) db.index })

-- `executemany` of the INSERT: the first failing row fails the transaction.
unfoldable pub insert_rows : List Row → Database → Option Database
insert_rows [] db = some db
insert_rows (r ∷ rest) db = elim (insert_row r db) [ none ↦ none | some db' ↦ insert_rows rest db' ]

-- A row with another id and timestamp, the columns that the trigger watches.
abbrev pub restamped : Option String → String → Row → Row
restamped id timestamp r = record r { id = id; timestamp = timestamp }

-- `UPDATE events SET id = …, timestamp = …` of one row between others, with the trigger
-- `events_timestamp_update`: the entries of `OLD.id` and `NEW.id` go, and `NEW.id` gets a new one.
abbrev pub update_between :
    List Row → Row → List Row → Option String → String → Database → Option Database
update_between before r after id timestamp db =
    if is_taken id (before ++ after)
    then none
    else some (record db {
      events = before ++ restamped id timestamp r ∷ after;
      index = Option.map (λ i. mark_dirty id (forget r.id i)) db.index;
    })

-- The UPDATE of the row at a position, as other writers make it, also of a row without an id;
-- `none` is the IntegrityError of a duplicate key.
unfoldable pub update_row : ℕ → Option String → String → Database → Option Database
update_row n id timestamp db = elim (drop n db.events) [
  | [] ↦ some db
  | r ∷ after ↦ update_between (take n db.events) r after id timestamp db
]

abbrev pub has_id : Option String → Row → Bool
has_id none r = false
has_id (some k) r = is_text r.id k

-- The rows that a DELETE leaves, and the trigger `events_timestamp_delete` for the others.
unfoldable pub kept : (Row → Bool) → List Row → List Row
kept doomed [] = []
kept doomed (r ∷ rest) = let others = kept doomed rest in if doomed r then others else r ∷ others

unfoldable pub forget_all : (Row → Bool) → List Row → Index → Index
forget_all doomed [] index = index
forget_all doomed (r ∷ rest) index =
    forget_all doomed rest (if doomed r then forget r.id index else index)

-- `cursor.rowcount`
unfoldable pub count_doomed : (Row → Bool) → List Row → ℕ
count_doomed doomed [] = 0
count_doomed doomed (r ∷ rest) = let n = count_doomed doomed rest in if doomed r then suc n else n

unfoldable pub delete_rows : (Row → Bool) → Database → Database
delete_rows doomed db = record db {
  events = kept doomed db.events;
  index = Option.map (forget_all doomed db.events) db.index;
}

-- `INSERT OR REPLACE` of other writers. The row that goes fires no trigger of its own, but
-- `events_timestamp_insert` does.
unfoldable pub replace_row : Row → Database → Database
replace_row r db = record db {
  events = kept (has_id r.id) db.events ++ r ∷ [];
  index = Option.map (mark_dirty r.id) db.index;
}
