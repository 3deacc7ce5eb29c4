-- ===== src/Monitor.antt =====
-- src/dbus_event_log/monitor.py: the recording of signals by `DBusMonitor`. GLib's callbacks queue
-- work on asyncio, which finishes it in any order. What the clock, the storage and `bus.subscribe`
-- answer is an argument. `Methods` is the task that empties the method capture, `Lifecycle` `start`
-- and `stop`; `Accounting` is a proof.
pub mod Accounting
pub mod Methods
pub mod Lifecycle
use Prim.Native.String.{◌++◌ as str_append}
use dbus_event_log.Prelude.{
  ℕ, zero, suc, ◌+◌, String, Bool, true, false, not, ◌&&◌, Option, none, some, List, [], ◌∷◌, ◌++◌,
  any, length, take, drop, leb, str_eq, if◌then◌else◌,
}
use dbus_event_log.Config.{DBusConfig}
use dbus_event_log.Names.{name_selected}
use dbus_event_log.Event.{DBusEvent, Value, Extra}
use dbus_event_log.Event.Kinds.{EventType, SignalType, map_signal_type}

-- The arguments of a fired callback of `_setup_signal_handlers`, and of `_subscribe_to_name_changes`.
pub data Pending : Type 0 where
  fired :
      (service : String) (arguments : List Value) (signal_name interface path sender : String)
      → Pending
  owner_changed : (name old_owner new_owner : String) → Pending

pub data Failure : Type 0 where
  queue_overflow signal_recording lifecycle_recording method_capture : Failure

-- The fields of `DBusMonitor` that the recording of signals uses; `subscriptions` has the keys,
-- `event_tasks` the work that waits.
pub record Monitor : Type 0 where
  pub config : DBusConfig
  pub running : Bool
  pub subscriptions : List String
  pub event_tasks : List Pending
  pub failure : Option Failure

-- `__init__`
abbrev pub new_monitor : DBusConfig → Monitor
new_monitor config = record {
  config = config;
  running = false;
  subscriptions = [];
  event_tasks = [];
  failure = none;
}

-- `_schedule_event`
unfoldable pub schedule_event : Pending → Monitor → Monitor
schedule_event p m =
    if leb m.config.max_pending_events (length m.event_tasks)
    then record m { failure = some queue_overflow }
    else record m { event_tasks = m.event_tasks ++ p ∷ [] }

-- `signal_handler` and `name_owner_changed`
unfoldable pub callback : Pending → Monitor → Monitor
callback p m = if m.running then schedule_event p m else m

-- The signals that are subscribed to.
abbrev pub signal_names : List String
signal_names = "PropertiesChanged" ∷ "ItemsChanged" ∷ "InterfacesAdded" ∷ "InterfacesRemoved" ∷ []

abbrev pub subscription_key : String → String → String
subscription_key service signal_name = str_append service (str_append ":" signal_name)

-- The loop of `_setup_signal_handlers`; `calls` calls of `bus.subscribe` succeed before one raises,
-- which ends the loop.
unfoldable pub add_subscriptions : ℕ → String → List String → List String → List String
add_subscriptions calls service [] keys = keys
add_subscriptions zero service (s ∷ rest) keys =
    let others = add_subscriptions zero service rest keys in
    if any (str_eq (subscription_key service s)) keys then others else keys
add_subscriptions (suc calls) service (s ∷ rest) keys =
    let present = add_subscriptions (suc calls) service rest keys in
    let added = add_subscriptions calls service rest (keys ++ subscription_key service s ∷ []) in
    if any (str_eq (subscription_key service s)) keys then present else added

-- `_setup_signal_handlers`
unfoldable pub setup_signal_handlers : ℕ → String → Monitor → Monitor
setup_signal_handlers calls service m = record m {
  subscriptions = add_subscriptions calls service signal_names m.subscriptions;
}

-- What one task meets: the clock, the new id, the calls of `bus.subscribe`, and whether the event is
-- stored and handled.
pub record Env : Type 0 where
  pub now : ℕ
  pub new_id : ℕ
  pub subscribe_calls : ℕ
  pub stores : Bool

-- The event of `_handle_signal`.
unfoldable pub signal_event :
    Env → String → List Value → String → String → String → String → DBusEvent
signal_event env service arguments signal_name interface path sender = record {
  id = env.new_id;
  timestamp = env.now;
  event_type = EventType.signal;
  service_name = service;
  object_path = path;
  interface = some interface;
  member = some signal_name;
  signal_type = some (map_signal_type signal_name);
  arguments = arguments;
  kwargs = Extra.signal signal_name (some interface) path sender;
  source_unique_name = some sender;
  destination_unique_name = none;
  message_serial = none;
  error_name = none;
  error_message = none;
  state_from = none;
  state_to = none;
}

abbrev pub is_given : String → Bool
is_given s = not (str_eq s "")

abbrev pub change_type : String → String → EventType
change_type old_owner new_owner =
    if is_given old_owner && not (is_given new_owner)
    then EventType.service_removed
    else if not (is_given old_owner) && is_given new_owner
    then EventType.service_added
    else EventType.signal

-- The event of `_handle_name_owner_change`.
unfoldable pub change_event : Env → String → String → String → DBusEvent
change_event env name old_owner new_owner = record {
  id = env.new_id;
  timestamp = env.now;
  event_type = change_type old_owner new_owner;
  service_name = name;
  object_path = "/";
  interface = some "org.freedesktop.DBus";
  member = some "NameOwnerChanged";
  signal_type = some SignalType.name_owner_changed;
  arguments = Value.text name ∷ Value.text old_owner ∷ Value.text new_owner ∷ [];
  kwargs = Extra.empty;
  source_unique_name = some (if is_given old_owner then old_owner else new_owner);
  destination_unique_name = none;
  message_serial = none;
  error_name = none;
  error_message = none;
  state_from = none;
  state_to = none;
}

-- `_store_event`, with the handler of an exception: the events that are stored.
abbrev pub store_event : Env → Failure → DBusEvent → Monitor → List DBusEvent × Monitor
store_event env failure e m =
    if env.stores then (e ∷ [], m) else ([], record m { failure = some failure })

-- `_handle_signal` and `_handle_name_owner_change`
unfoldable pub handle : Env → Pending → Monitor → List DBusEvent × Monitor
handle env (fired service arguments signal_name interface path sender) m =
    if any (str_eq signal_name) m.config.ignored_signals
    then ([], m)
    else store_event env signal_recording
        (signal_event env service arguments signal_name interface path sender) m
handle env (owner_changed name old_owner new_owner) m =
    let e = change_event env name old_owner new_owner in
    if m.running && is_given new_owner && name_selected m.config.services name
    then store_event env lifecycle_recording e (setup_signal_handlers env.subscribe_calls name m)
    else store_event env lifecycle_recording e m

-- A task at some place of `_event_tasks` runs to its end and is discarded.
unfoldable pub run_task :
    Env → List Pending → Pending → List Pending → Monitor → List DBusEvent × Monitor
run_task env before p after m = handle env p (record m { event_tasks = before ++ after })
