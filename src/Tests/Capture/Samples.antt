-- ===== src/Tests/Capture/Samples.antt =====
-- A client `:1.5` calls `SetValue` of `com.victronenergy.battery`, which is owned by `:1.9`.
use dbus_event_log.Prelude.{true, false, none, some, [], ◌∷◌}
use dbus_event_log.Config.{DBusConfig, default_dbus}
use dbus_event_log.Event.{DBusEvent, Extra, Identity}
use dbus_event_log.Event.Kinds.{EventType}
use dbus_event_log.Capture.{Capture, Message}
use dbus_event_log.Capture.Decode.{Env}

abbrev pub config : DBusConfig
config = record default_dbus { max_pending_events = 2; max_pending_bytes = 1024 }

abbrev pub env : Env
env = record { monotonic = 100; new_id = 7; credentials_of = λ s. none; show = λ v. "?" }

abbrev pub later : Env
later = record env { monotonic = 200; new_id = 8 }

abbrev pub call_message : Message
call_message = record {
  kind = 1;
  sender = some ":1.5";
  destination = some "com.victronenergy.battery";
  member = some "SetValue";
  path = some "/Soc";
  interface = none;
  serial = 3;
  reply_serial = 0;
  flags = 0;
  error_name = none;
  body = none;
  header_sizes = 4 ∷ 4 ∷ [];
}

abbrev pub reply_message : Message
reply_message = record call_message {
  kind = 2;
  sender = some ":1.9";
  destination = some ":1.5";
  member = none;
  serial = 12;
  reply_serial = 3;
}

abbrev pub ready : Capture
ready = record {
  config = config;
  ignored_senders = ":1.1" ∷ [];
  connection = none;
  lookup = none;
  filter_id = none;
  ready = true;
  overflow = false;
  queue = [];
  queued_bytes = 0;
  discovery_barrier = true;
  lookup_sender = ":1.1";
  monitor_serial = none;
  owners = ("com.victronenergy.battery", ":1.9") ∷ [];
  credentials = [];
  calls = [];
}

abbrev pub unknown_caller : Identity
unknown_caller = record {
  unique_name = ":1.5";
  credentials_available = false;
  unix_user_id = none;
  process_id = none;
}

abbrev pub call_event : DBusEvent
call_event = record {
  id = 7;
  timestamp = 1;
  event_type = EventType.method_call;
  service_name = "com.victronenergy.battery";
  object_path = "/Soc";
  interface = none;
  member = some "SetValue";
  signal_type = none;
  arguments = [];
  kwargs = Extra.call unknown_caller "com.victronenergy.battery" [] true;
  source_unique_name = some ":1.5";
  destination_unique_name = some ":1.9";
  message_serial = some 3;
  error_name = none;
  error_message = none;
  state_from = none;
  state_to = none;
}

-- The capture after the call.
abbrev pub awaiting : Capture
awaiting = record ready {
  credentials = (":1.5", unknown_caller) ∷ [];
  calls =
      (
        (":1.5", 3),
        record {
          started = 100;
          event = record call_event {
            arguments = [];
            kwargs = Extra.tracked unknown_caller "com.victronenergy.battery";
          };
        },
      )
      ∷ [];
}
