-- ===== src/Config.antt =====
-- src/dbus_event_log/config.py: the settings that the modelled code reads, their defaults, and the
-- bounds that the field declarations put on them. Reading environment variables and YAML is
-- pydantic's and not modelled; `maintenance_interval_seconds` is a number of milliseconds here.
use dbus_event_log.Prelude.{
  ℕ, ◌*◌, ◌≤◌, ◌≡◌, String, Bool, true, false, ◌&&◌, Option, none, List, [], ◌∷◌, leb, ltb, arith,
  refl,
}

pub data Backend : Type 0 where
  sqlite timescaledb : Backend

pub data TlsMode : Type 0 where
  verify_full trusted_local : TlsMode

pub record StorageConfig : Type 0 where
  pub backend : Backend
  pub timescaledb_dsn : Option String
  pub timescaledb_password_file : Option String
  pub timescaledb_tls : TlsMode
  pub retention_days : ℕ
  pub rotation_size_mb : ℕ
  pub rotation_max_archives : ℕ
  pub maintenance_interval_ms : ℕ
  pub vacuum_on_startup : Bool

abbrev pub default_storage : StorageConfig
default_storage = record {
  backend = sqlite;
  timescaledb_dsn = none;
  timescaledb_password_file = none;
  timescaledb_tls = verify_full;
  retention_days = 30;
  rotation_size_mb = 100;
  rotation_max_archives = 4;
  maintenance_interval_ms = 300_000;
  vacuum_on_startup = true;
}

-- The bounds `ge=1` and `gt=0`; `ge=0` is the type.
unfoldable pub storage_accepted : StorageConfig → Bool
storage_accepted c = leb 1 c.rotation_max_archives && ltb 0 c.maintenance_interval_ms

pub record MqttConfig : Type 0 where
  pub enabled : Bool
  pub publish_method_events : Bool
  pub host : String
  pub port : ℕ
  pub username : Option String
  pub password : Option String
  pub password_file : Option String
  pub topic_prefix : String
  pub qos : ℕ
  pub retain : Bool
  pub client_id : String

abbrev pub default_mqtt : MqttConfig
default_mqtt = record {
  enabled = true;
  publish_method_events = false;
  host = "localhost";
  port = 1883;
  username = none;
  password = none;
  password_file = none;
  topic_prefix = "victron/dbus/events";
  qos = 1;
  retain = false;
  client_id = "dbus-event-log";
}

pub data BusType : Type 0 where
  system session : BusType

pub record DBusConfig : Type 0 where
  pub bus_type : BusType
  pub services : List String
  pub ignored_signals : List String
  pub capture_methods : Bool
  pub method_members : List String
  pub max_pending_events : ℕ
  pub max_pending_bytes : ℕ

abbrev pub default_dbus : DBusConfig
default_dbus = record {
  bus_type = system;
  services = "com.victronenergy.*" ∷ "org.freedesktop.Notifications" ∷ "org.freedesktop.DBus" ∷ [];
  ignored_signals = "NameAcquired" ∷ "NameLost" ∷ [];
  capture_methods = false;
  method_members = [];
  max_pending_events = 1024;
  max_pending_bytes = 8 * 1024 * 1024;
}

-- `ge` and `le` of the two buffer bounds.
unfoldable pub dbus_accepted : DBusConfig → Bool
dbus_accepted c =
    leb 1 c.max_pending_events
    && leb c.max_pending_events 65536
    && leb 1024 c.max_pending_bytes
    && leb c.max_pending_bytes (256 * 1024 * 1024)

pub default_dbus_accepted : dbus_accepted default_dbus ≡ true
unfolding dbus_accepted
default_dbus_accepted = refl

default_storage_accepted : storage_accepted default_storage ≡ true
unfolding storage_accepted
default_storage_accepted = refl

-- An accepted configuration leaves room for at least one event and for the largest message that
-- a reader may take from the queue in one round.
pub dbus_accepted-bounds :
    (c : DBusConfig)
    → dbus_accepted c ≡ true
    → (1 ≤ c.max_pending_events) × (1024 ≤ c.max_pending_bytes)
unfolding dbus_accepted
dbus_accepted-bounds c h = ground arith
