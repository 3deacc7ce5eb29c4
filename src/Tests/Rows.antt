-- ===== src/Tests/Rows.antt =====
-- Rows and a database of src/dbus_event_log/storage.py for the runs: an old event, a new one, and
-- one whose timestamp cannot be read.
use dbus_event_log.Prelude.{String, Option, none, some, [], ◌∷◌, str_eq, if◌then◌else◌}
use dbus_event_log.Event.{pos}
use dbus_event_log.Storage.Time.{Stamp, Formats}
use dbus_event_log.Storage.Tables.{Row, Database, dirty_entry}

abbrev pub read_stamp : String → Option Stamp
read_stamp text =
    if str_eq text "0001-01-01T00:00:00+00:00"
    then some (record { local = 0; offset = some (pos 0) })
    else if str_eq text "0001-01-09T00:00:00"
    then some (record { local = 691_200_000_000; offset = none })
    else none

abbrev pub formats : Formats
formats = record {
  fromisoformat = read_stamp;
  isoformat = λ t. "0001-01-01T00:00:00+00:00";
  uuid_text = λ n. "00000000-0000-0000-0000-000000000000";
  json_arguments = λ values. "[]";
  json_kwargs = λ extra. "{}";
}

abbrev pub stored : String → String → Row
stored id timestamp = record {
  id = some id;
  timestamp = timestamp;
  event_type = "state_change";
  service_name = "com.victronenergy.battery";
  object_path = "/Soc";
  interface = none;
  member = none;
  signal_type = none;
  arguments = "[]";
  kwargs = "{}";
  source_unique_name = none;
  destination_unique_name = none;
  message_serial = none;
  error_name = none;
  error_message = none;
  state_from = none;
  state_to = none;
}

abbrev pub old_row : Row
old_row = stored "a" "0001-01-01T00:00:00+00:00"

abbrev pub new_row : Row
new_row = stored "b" "0001-01-09T00:00:00"

abbrev pub odd_row : Row
odd_row = stored "c" "yesterday"

abbrev pub with_old : Database
with_old = record {
  version = 2 ∷ [];
  events = old_row ∷ [];
  index = some (("a", dirty_entry) ∷ []);
}

abbrev pub with_both : Database
with_both = record {
  version = 2 ∷ [];
  events = old_row ∷ new_row ∷ [];
  index = some (("b", dirty_entry) ∷ ("a", dirty_entry) ∷ []);
}
