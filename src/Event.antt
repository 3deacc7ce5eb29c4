-- ===== src/Event.antt =====
-- The event model, src/dbus_event_log/models.py: the two enumerations with their string values, the
-- arguments of a bus message, `DBusEvent`, and the MQTT payload. A UUID is its number, a timestamp
-- is the number of microseconds since 0001-01-01T00:00:00 UTC; their texts (`str`, `isoformat`) are
-- not modelled. The dictionary `kwargs` has one constructor for each shape that the program builds.
pub mod Kinds
pub mod Payload
use dbus_event_log.Prelude.{ℕ, String, Bool, Option, List}
use Kinds.{EventType, SignalType}

pub data ℤ : Type 0 where
  pos : ℕ → ℤ
  negsuc : ℕ → ℤ

-- What `unpack()` makes of a D-Bus body. A double is its bit pattern.
mutual
  pub data Value : Type 0 where
    text : String → Value
    integer : ℤ → Value
    boolean : Bool → Value
    double : ℕ → Value
    array : Values → Value
    dictionary : Entries → Value

  pub data Values : Type 0 where
    nil : Values
    cons : Value → Values → Values

  pub data Entries : Type 0 where
    end : Entries
    entry : Value → Value → Entries → Entries

-- `identity` of `MethodCapture._caller`
pub record Identity : Type 0 where
  pub unique_name : String
  pub credentials_available : Bool
  pub unix_user_id : Option ℕ
  pub process_id : Option ℕ

-- The shapes of `kwargs`.
pub data Extra : Type 0 where
  empty : Extra
  signal : (signal_name : String) (interface : Option String) (path sender : String) → Extra
  call :
      (caller : Identity) (destination : String) (destination_names : List String)
      (reply_expected : Bool)
      → Extra
  tracked : (caller : Identity) (destination : String) → Extra
  reply : (call_event_id : ℕ) (reply_serial : Option ℕ) (caller : Identity) → Extra

pub record DBusEvent : Type 0 where
  pub id : ℕ
  pub timestamp : ℕ
  pub event_type : EventType
  pub service_name : String
  pub object_path : String
  pub interface : Option String
  pub member : Option String
  pub signal_type : Option SignalType
  pub arguments : List Value
  pub kwargs : Extra
  pub source_unique_name : Option String
  pub destination_unique_name : Option String
  pub message_serial : Option ℕ
  pub error_name : Option String
  pub error_message : Option String
  pub state_from : Option String
  pub state_to : Option String
