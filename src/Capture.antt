-- ===== src/Capture.antt =====
-- src/dbus_event_log/method_capture.py: the state of `MethodCapture`, the messages that Gio
-- delivers and what the daemon answers. `Filter`, `Owners`, `Decode` and `Poll` hold the methods,
-- and the modules below those the proofs.
--
-- A Gio message is the fields that the class reads. Times are microseconds. Gio, GLib and the
-- daemon are not code of this repository: what they answer is an argument (`Env`), a message or a
-- step of the environment.
pub mod Closing
pub mod Filter
pub mod Owners
pub mod Decode
pub mod Poll
pub mod Frames
pub mod Batches
pub mod Bounds
pub mod Steps
pub mod NoLoss
pub mod Order
pub mod Meanwhile
pub mod Replies
pub mod Rewind
pub mod Replay
pub mod Startup
use dbus_event_log.Prelude.{
  ℕ, ◌+◌, String, Bool, false, Option, none, some, List, [], ◌∷◌, ◌&&◌, not, str_eq, ◌==◌, sum, map,
}
pub use dbus_event_log.Prelude.{is_text, or_empty}
use dbus_event_log.Config.{DBusConfig}
use dbus_event_log.Event.{DBusEvent, Value, Identity}
use dbus_event_log.Names.{name_selected}

abbrev pub bus_name : String
bus_name = "org.freedesktop.DBus"

pub record Body : Type 0 where
  pub size : ℕ
  pub arguments : List Value

pub record Message : Type 0 where
  pub kind : ℕ
  pub sender : Option String
  pub destination : Option String
  pub member : Option String
  pub path : Option String
  pub interface : Option String
  pub serial : ℕ
  pub reply_serial : ℕ
  pub flags : ℕ
  pub error_name : Option String
  pub body : Option Body
  pub header_sizes : List ℕ

-- A private connection of Gio.
pub record Connection : Type 0 where
  pub unique_name : String
  pub is_closed : Bool

pub record Queued : Type 0 where
  pub timestamp : ℕ
  pub message : Message
  pub size : ℕ

-- An entry of `_calls`: when the call was seen, and its event.
pub record Tracked : Type 0 where
  pub started : ℕ
  pub event : DBusEvent

pub record Capture : Type 0 where
  pub config : DBusConfig
  pub ignored_senders : List String
  pub connection : Option Connection
  pub lookup : Option Connection
  pub filter_id : Option ℕ
  pub ready : Bool
  pub overflow : Bool
  pub queue : List Queued
  pub queued_bytes : ℕ
  pub discovery_barrier : Bool
  pub lookup_sender : String
  pub monitor_serial : Option ℕ
  pub owners : List (String × String)
  pub credentials : List (String × Identity)
  pub calls : List ((String × ℕ) × Tracked)

-- `MethodCapture.__init__`
unfoldable pub init : DBusConfig → String → Capture
init config ignored_sender = record {
  config = config;
  ignored_senders = ignored_sender ∷ [];
  connection = none;
  lookup = none;
  filter_id = none;
  ready = false;
  overflow = false;
  queue = [];
  queued_bytes = 0;
  discovery_barrier = false;
  lookup_sender = "";
  monitor_serial = none;
  owners = [];
  credentials = [];
  calls = [];
}

pub data CaptureError : Type 0 where
  capture_overflow discovery_overflow connection_closed : CaptureError
  too_many_pending_replies malformed_arguments missing_key barrier_not_observed : CaptureError
  gio_missing monitor_refused close_failed : CaptureError

pub data Result {ℓ} (A : Type ℓ) : Type ℓ where
  ok : A → Result A
  err : CaptureError → Result A

-- `_matches`: bus management is never selected.
unfoldable pub matches : DBusConfig → String → Bool
unfolding name_selected
matches config name = not (str_eq name bus_name) && name_selected config.services name

abbrev body_size : Option Body → ℕ
body_size none = 0
body_size (some b) = b.size

-- `_message_size`
unfoldable pub message_size : Message → ℕ
message_size m = 16 + body_size m.body + sum (map (λ n. 16 + n) m.header_sizes)

-- `_is_discovery_barrier`
unfoldable pub is_discovery_barrier : String → Message → Bool
is_discovery_barrier lookup_sender m =
    not (str_eq lookup_sender "")
    && m.kind == 1
    && is_text m.sender lookup_sender
    && is_text m.destination bus_name
    && is_text m.member "GetId"

-- `message.get_body().unpack()`, with nothing for no body
abbrev pub body_arguments : Message → List Value
body_arguments m = arguments_of m.body
  where
    arguments_of : Option Body → List Value
    arguments_of none = []
    arguments_of (some b) = b.arguments
