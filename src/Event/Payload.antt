-- ===== src/Event/Payload.antt =====
-- `DBusEvent.to_mqtt_payload` of src/dbus_event_log/models.py.
use dbus_event_log.Prelude.{ℕ, String, Option, none, some, List, ◌≡◌, refl}
use dbus_event_log.Event.Kinds.{
  EventType, SignalType, event_type_value, event_type_of, signal_type_value, signal_type_of,
  event_type_of-value, signal_type_of-value,
}
use dbus_event_log.Event.{DBusEvent, Value, Extra}
use dbus_event_log.Storage.Time.{Formats, IsFaithful, utc_timestamp, utc_timestamp-isoformat}
use mathlib.Core.Option

-- The keys of the dictionary, in its order.
pub record MqttPayload : Type 0 where
  pub schema_version : ℕ
  pub id : String
  pub ts : String
  pub type : String
  pub service : String
  pub path : String
  pub interface : Option String
  pub member : Option String
  pub signal_type : Option String
  pub args : List Value
  pub kwargs : Extra
  pub src : Option String
  pub dst : Option String
  pub serial : Option ℕ
  pub error : Option String
  pub error_msg : Option String
  pub state_from : Option String
  pub state_to : Option String

abbrev pub schema_version : ℕ
schema_version = 2

unfoldable pub to_mqtt_payload : Formats → DBusEvent → MqttPayload
to_mqtt_payload f e = record {
  schema_version = schema_version;
  id = f.uuid_text e.id;
  ts = f.isoformat e.timestamp;
  type = event_type_value e.event_type;
  service = e.service_name;
  path = e.object_path;
  interface = e.interface;
  member = e.member;
  signal_type = Option.map signal_type_value e.signal_type;
  args = e.arguments;
  kwargs = e.kwargs;
  src = e.source_unique_name;
  dst = e.destination_unique_name;
  serial = e.message_serial;
  error = e.error_name;
  error_msg = e.error_message;
  state_from = e.state_from;
  state_to = e.state_to;
}

-- What a subscriber that knows the schema reads back.
read_signal_type : Option String → Option (Option SignalType)
read_signal_type none = some none
read_signal_type (some s) = Option.map some (signal_type_of s)

read_event :
    MqttPayload
    → Option ℕ
    → Option ℕ
    → Option EventType
    → Option (Option SignalType)
    → Option DBusEvent
read_event p (some id) (some instant) (some t) (some g) = some (record {
  id = id;
  timestamp = instant;
  event_type = t;
  service_name = p.service;
  object_path = p.path;
  interface = p.interface;
  member = p.member;
  signal_type = g;
  arguments = p.args;
  kwargs = p.kwargs;
  source_unique_name = p.src;
  destination_unique_name = p.dst;
  message_serial = p.serial;
  error_name = p.error;
  error_message = p.error_msg;
  state_from = p.state_from;
  state_to = p.state_to;
})
read_event p _ _ _ _ = none

-- `read_id` is the reader of UUIDs.
pub from_mqtt_payload : Formats → (String → Option ℕ) → MqttPayload → Option DBusEvent
unfolding read_event read_signal_type
from_mqtt_payload f read_id p =
    read_event p (read_id p.id) (utc_timestamp f p.ts) (event_type_of p.type)
      (read_signal_type p.signal_type)

read_signal_type-map :
    (g : Option SignalType) → read_signal_type (Option.map signal_type_value g) ≡ some g
unfolding read_signal_type
read_signal_type-map none = refl
read_signal_type-map (some t) = rw (signal_type_of-value t)

-- Nothing of an event is lost in its MQTT payload: a reader of the schema, which parses the text
-- of the id and that of the timestamp, gets the event back. The hypotheses: the timestamp formats
-- are faithful, and the reader of UUIDs reads the text of each back.
pub from-to_mqtt_payload :
    (f : Formats) (read_id : String → Option ℕ) (e : DBusEvent)
    → IsFaithful f
    → ((id : ℕ) → read_id (f.uuid_text id) ≡ some id)
    → from_mqtt_payload f read_id (to_mqtt_payload f e) ≡ some e
unfolding from_mqtt_payload to_mqtt_payload
from-to_mqtt_payload f read_id e w ids = rw (
  ids e.id,
  utc_timestamp-isoformat f e.timestamp w,
  event_type_of-value e.event_type,
  read_signal_type-map e.signal_type,
)
