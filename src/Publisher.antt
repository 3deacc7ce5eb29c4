-- ===== src/Publisher.antt =====
-- src/dbus_event_log/mqtt_publisher.py: `MQTTPublisher`. paho's client is what the calls on it say:
-- the requests are recorded, and whether one raises is an argument. Passwords are lists of code
-- points.
pub mod Lifecycle
pub mod Topics
pub mod Queue
use Prim.Native.Char.{code, char}
use Prim.Native.String.{◌++◌ as str_append}
use dbus_event_log.Prelude.{
  ℕ, zero, suc, ◌≡◌, refl, String, Bool, true, false, not, ◌&&◌, ◌||◌, ◌==◌, Option, none, some,
  List, [], ◌∷◌, ◌++◌, str_eq, or_empty, is_some, if◌then◌else◌, arith,
}
use dbus_event_log.Config.{MqttConfig}
use dbus_event_log.Event.{DBusEvent}
use dbus_event_log.Event.Kinds.{EventType, method_call, method_return, error}
use dbus_event_log.Storage.Time.{Formats}
use dbus_event_log.Event.Payload.{MqttPayload, to_mqtt_payload}

pub data Password : Type 0 where
  given : String → Password
  from_file : List ℕ → Password

-- What the program asks of paho's client.
pub data Request : Type 0 where
  credentials : (username : String) → Password → Request
  start : (host : String) (port : ℕ) → Request
  stop : Request
  message : (topic : String) → MqttPayload → (qos : ℕ) → (retain : Bool) → Request

-- The fields of `MQTTPublisher`; `has_client` is `_client is not None`.
pub record Publisher : Type 0 where
  pub config : MqttConfig
  pub has_client : Bool
  pub connected : Bool

-- `__init__`
abbrev pub new_publisher : MqttConfig → Publisher
new_publisher config = record { config = config; has_client = false; connected = false }

pub data ConnectError : Type 0 where
  two_passwords no_username unreadable_password : ConnectError

pub data Result {ℓ} (A : Type ℓ) : Type ℓ where
  ok : A → Result A
  err : ConnectError → Result A

abbrev pub is_empty : Option String → Bool
is_empty o = str_eq (or_empty o) ""

abbrev file_password : Option (List ℕ) → Result (Option Password)
file_password none = err unreadable_password
file_password (some p) = ok (some (from_file p))

-- The password of the configuration or of its file; `read` is `read_password_file`.
unfoldable pub password_of : (String → Option (List ℕ)) → MqttConfig → Result (Option Password)
password_of read config = elim config.password_file [
  | none ↦ elim config.password [ none ↦ ok none | some p ↦ ok (some (given p)) ]
  | some path ↦
      if is_some config.password
      then err two_passwords
      else if is_empty config.username
      then err no_username
      else file_password (read path)
]

abbrev is_truthy : Password → Bool
is_truthy (given p) = not (str_eq p "")
is_truthy (from_file []) = false
is_truthy (from_file (c ∷ rest)) = true

-- `if self.config.username and password`
abbrev login : MqttConfig → Option Password → List Request
login config none = []
login config (some p) =
    if not (is_empty config.username) && is_truthy p
    then credentials (or_empty config.username) p ∷ []
    else []

-- `disconnect`: whatever the client raises, the client is let go.
unfoldable pub disconnect : Publisher → Publisher × List Request
disconnect p =
    if p.has_client
    then (record p { has_client = false; connected = false }, stop ∷ [])
    else (p, [])

abbrev start_client : Bool → Publisher → Option Password → Publisher × List Request
start_client works p password =
    let requests = login p.config password ++ start p.config.host p.config.port ∷ [] in
    if works
    then (record p { has_client = true }, requests)
    else let stopped = disconnect (record p { has_client = true }) in
      (stopped.0, requests ++ stopped.1)

abbrev connect_with :
    Bool → Publisher → Result (Option Password) → Result (Unit {0}) × Publisher × List Request
connect_with works p (err e) = (err e, p, [])
connect_with works p (ok password) =
    let started = start_client works p password in (ok tt, started.0, started.1)

-- `connect`; `works` is whether starting the network loop raises nothing.
unfoldable pub connect :
    (String → Option (List ℕ)) → Bool → Publisher → Result (Unit {0}) × Publisher × List Request
connect read works p =
    if not p.config.enabled
    then (ok tt, p, [])
    else if p.has_client
    then (ok tt, p, [])
    else connect_with works p (password_of read p.config)

-- `_on_connect`
unfoldable pub on_connect : ℕ → Publisher → Publisher
on_connect reason_code p = if reason_code == 0 then record p { connected = true } else p

-- `_on_disconnect`
unfoldable pub on_disconnect : Publisher → Publisher
on_disconnect p = record p { connected = false }

abbrev pub is_method_event : EventType → Bool
is_method_event method_call = true
is_method_event method_return = true
is_method_event error = true
is_method_event _ = false

-- `event.service_name.replace(".", "/")`
unfoldable pub service_path : String → String
service_path String.[] = String.[]
service_path (String.◌∷◌ c s) =
    String.◌∷◌ (if code c == b'.' then char b'/' tt else c) (service_path s)

-- `event.member or "unknown"`
abbrev pub member_or_unknown : Option String → String
member_or_unknown member = if is_empty member then "unknown" else or_empty member

unfoldable pub topic : MqttConfig → DBusEvent → String
topic config e = str_append config.topic_prefix (
    str_append "/"
      (str_append (service_path e.service_name) (str_append "/" (member_or_unknown e.member))))

-- `publish`; an exception of the client is only logged.
unfoldable pub publish : Formats → Publisher → DBusEvent → List Request
publish f p e =
    if not p.has_client || not p.connected
    then []
    else if not p.config.publish_method_events && is_method_event e.event_type
    then []
    else message (topic p.config e) (to_mqtt_payload f e) p.config.qos p.config.retain ∷ []

-- `publish_batch`
unfoldable pub publish_batch : Formats → Publisher → List DBusEvent → List Request
publish_batch f p [] = []
publish_batch f p (e ∷ rest) = publish f p e ++ publish_batch f p rest
