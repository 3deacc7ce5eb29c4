-- ===== src/Tests/Samples.antt =====
-- An event of src/dbus_event_log/models.py for the runs.
use dbus_event_log.Prelude.{none, some, []}
use dbus_event_log.Event.{DBusEvent, Extra}
use dbus_event_log.Event.Kinds.{EventType}

abbrev pub soc_changed : DBusEvent
soc_changed = record {
  id = 1;
  timestamp = 0;
  event_type = EventType.property_changed;
  service_name = "com.victronenergy.battery";
  object_path = "/Soc";
  interface = none;
  member = some "PropertiesChanged";
  signal_type = none;
  arguments = [];
  kwargs = Extra.empty;
  source_unique_name = none;
  destination_unique_name = none;
  message_serial = none;
  error_name = none;
  error_message = none;
  state_from = none;
  state_to = none;
}
