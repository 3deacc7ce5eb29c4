-- ===== src/Monitor/Lifecycle.antt =====
-- `start` and `stop` of src/dbus_event_log/monitor.py with the subscriptions of a start. What the
-- bus, the storage and the capture answer is an argument; the cancellation of a task is left out.
pub mod Idle
pub mod Starting
use text.Mathlib.Text.{starts_with}
use dbus_event_log.Prelude.{
  ℕ, zero, suc, ◌+◌, String, Bool, true, false, not, ◌&&◌, ◌||◌, Option, none, some, List, [], ◌∷◌,
  ◌++◌, any, length, str_eq, if◌then◌else◌,
}
use dbus_event_log.Names.{ends_with_star, drop_last}
use dbus_event_log.Event.{DBusEvent}
use dbus_event_log.Capture.{Capture, init, Result, ok, err}
use dbus_event_log.Capture.Decode.{Env as DecodeEnv}
use dbus_event_log.Capture.Poll.{stop_capture, close}
use dbus_event_log.Capture.Startup.{StartEnv}
use dbus_event_log.Capture.Startup
use dbus_event_log.Monitor.{Monitor, Pending, Env, method_capture, run_task, setup_signal_handlers}
use dbus_event_log.Monitor.Methods.{Methods, dispatch_methods}

-- `_method_task`: there is none, it runs, or it has ended.
pub data Task : Type 0 where
  absent running ended : Task

-- The fields of `DBusMonitor` with its tasks: whether `_maintenance_task`, `_dispatch_task` and
-- `_storage_executor` are set. `unsubscribed` are the keys whose `unsubscribe` was called, and
-- `dropped` is the last capture that the monitor let go of, in the state it had then.
pub record Life : Type 0 where
  pub monitor : Monitor
  pub maintenance_stop : Bool
  pub maintenance_task : Bool
  pub dispatch_task : Bool
  pub method_task : Task
  pub executor : Bool
  pub capture : Option Capture
  pub unsubscribed : List String
  pub dropped : Option Capture

-- What a start meets: whether the storage is SQLite and its maintenance works, whether the name
-- changes can be subscribed to, `ListNames`, and the calls of `bus.subscribe` that succeed for a service.
pub record BusEnv : Type 0 where
  pub is_sqlite : Bool
  pub maintains : Bool
  pub name_changes : Bool
  pub names : Option (List String)
  pub subscribe_calls : String → ℕ
  pub unique_name : String
  pub capture : StartEnv

-- What a stop meets: the keys whose `unsubscribe` works, whether the capture's two connections can
-- be closed, the storage, and what decoding and the waiting tasks find.
pub record StopEnv : Type 0 where
  pub unsubscribes : String → Bool
  pub closes : Bool
  pub lookup_closes : Bool
  pub stores : DBusEvent → Bool
  pub decoding : ℕ → DecodeEnv
  pub tasks : ℕ → Env

pub data Ending : Type 0 where
  returned raised : Ending

-- `[name for name in bus_names if name.startswith(prefix)]`
unfoldable pub with_prefix : String → List String → List String
with_prefix prefix [] = []
with_prefix prefix (name ∷ rest) =
    let others = with_prefix prefix rest in
    if starts_with name prefix then name ∷ others else others

-- `_discover_services`
abbrev pub discover_services : Option (List String) → String → List String
discover_services none prefix = []
discover_services (some names) prefix = with_prefix prefix names

unfoldable pub setup_all : (String → ℕ) → List String → Monitor → Monitor
setup_all calls [] m = m
setup_all calls (s ∷ rest) m = setup_all calls rest (setup_signal_handlers (calls s) s m)

-- `_subscribe_to_service`
unfoldable pub subscribe_to_service : BusEnv → String → Monitor → Monitor
subscribe_to_service env pattern m =
    if ends_with_star pattern
    then setup_all env.subscribe_calls (discover_services env.names (drop_last pattern)) m
    else setup_all env.subscribe_calls (pattern ∷ []) m

unfoldable pub subscribe_to_services : BusEnv → List String → Monitor → Monitor
subscribe_to_services env [] m = m
subscribe_to_services env (p ∷ rest) m =
    subscribe_to_services env rest (subscribe_to_service env p m)

-- `_subscribe_to_name_changes`: the key is set, also again.
unfoldable pub subscribe_to_name_changes : Bool → Monitor → Monitor
subscribe_to_name_changes works m =
    if not works
    then m
    else if any (str_eq "dbus") m.subscriptions
    then m
    else record m { subscriptions = m.subscriptions ++ "dbus" ∷ [] }

-- `asyncio.gather` of what waits, in one order.
unfoldable pub run_all : (ℕ → Env) → List Pending → Monitor → List DBusEvent × Monitor
run_all env [] m = ([], m)
run_all env (p ∷ rest) m =
    let one = run_task (env (length rest)) [] p rest m in
    let others = run_all env rest one.1 in (one.0 ++ others.0, others.1)

-- The drained method task; there is one pass more than messages.
abbrev pub drained : StopEnv → Capture → Methods
drained env c =
    dispatch_methods (suc (length c.queue)) env.stores env.decoding
      (record { running = false; capture = c; recorded = []; failed = false; finished = false })

-- The last part of `stop`: the tasks and the executor.
abbrev pub finish_tasks : StopEnv → List DBusEvent → Life → Ending × List DBusEvent × Life
finish_tasks env recorded l =
    let done = run_all env.tasks l.monitor.event_tasks l.monitor in
    (
      returned,
      recorded ++ done.0,
      record l { monitor = done.1; dispatch_task = false; executor = false },
    )

-- The method task as `stop` leaves it; without one that runs the capture stays.
abbrev pub waited : StopEnv → Task → Capture → Methods
waited env running c = drained env c
waited env absent c = record {
  running = false;
  capture = c;
  recorded = [];
  failed = false;
  finished = true;
}
waited env ended c = record {
  running = false;
  capture = c;
  recorded = [];
  failed = false;
  finished = true;
}

abbrev pub awaited : Task → Task
awaited absent = absent
awaited running = ended
awaited ended = ended

-- A failed method task is kept in `_failure`.
abbrev pub note_failure : Bool → Monitor → Monitor
note_failure failed m = if failed then record m { failure = some method_capture } else m

-- A `close` that raises leaves the capture in its field, and `stop` ends.
abbrev pub close_capture :
    StopEnv → List DBusEvent → Life → Bool × Capture → Ending × List DBusEvent × Life
close_capture env recorded l (false, c) = (raised, recorded, record l { capture = some c })
close_capture env recorded l (true, c) =
    finish_tasks env recorded (record l { capture = none; dropped = some c })

-- From the wait for the method task on.
abbrev pub finish_capture : StopEnv → Life → Option Capture → Ending × List DBusEvent × Life
finish_capture env l none = finish_tasks env [] (record l { method_task = awaited l.method_task })
finish_capture env l (some c) =
    let m = waited env l.method_task c in
    close_capture env m.recorded
      (record l { monitor = note_failure m.failed l.monitor; method_task = awaited l.method_task })
      (close env.closes env.lookup_closes m.capture)

-- From `stop_capture` on.
abbrev pub after_stop_capture : StopEnv → Life → Bool × Capture → Ending × List DBusEvent × Life
after_stop_capture env l (false, c) = (raised, [], record l { capture = some c })
after_stop_capture env l (true, c) =
    finish_capture env (record l { maintenance_task = false; capture = some c }) (some c)

abbrev pub stop_methods : StopEnv → Life → Option Capture → Ending × List DBusEvent × Life
stop_methods env l none = finish_capture env (record l { maintenance_task = false }) none
stop_methods env l (some c) = after_stop_capture env l (stop_capture env.closes c)

-- `for sub in self._subscriptions.values()`: whether all calls work, and the keys of those that did.
unfoldable pub unsubscribe_all : (String → Bool) → List String → Bool × List String
unsubscribe_all works [] = (true, [])
unsubscribe_all works (key ∷ rest) =
    let others = unsubscribe_all works rest in
    if works key then (others.0, key ∷ others.1) else (false, [])

-- `stop` after the loop, whose exception ends it.
abbrev pub after_unsubscribing :
    StopEnv → Life → Bool × List String → Ending × List DBusEvent × Life
after_unsubscribing env l (false, keys) =
    (raised, [], record l { unsubscribed = l.unsubscribed ++ keys })
after_unsubscribing env l (true, keys) =
    stop_methods env
      (record l {
        monitor = record l.monitor { subscriptions = [] };
        unsubscribed = l.unsubscribed ++ keys;
      })
      l.capture

-- `stop`: how it ends, and the events that it still records.
unfoldable pub stop : StopEnv → Life → Ending × List DBusEvent × Life
stop env l =
    after_unsubscribing env
      (record l { monitor = record l.monitor { running = false }; maintenance_stop = true })
      (unsubscribe_all env.unsubscribes l.monitor.subscriptions)

-- What `start` does up to the dispatch task.
unfoldable pub begin_dispatch : BusEnv → Life → Life
begin_dispatch env l = record l {
  monitor =
      subscribe_to_services env l.monitor.config.services
        (subscribe_to_name_changes env.name_changes (record l.monitor { running = true }));
  maintenance_stop = false;
  maintenance_task = l.maintenance_task || env.is_sqlite;
  executor = l.executor || env.is_sqlite;
  dispatch_task = true;
}

-- A capture that cannot start stops the monitor.
abbrev pub with_capture :
    StopEnv → Life → Result (Unit {0}) × Capture → Ending × List DBusEvent × Life
with_capture stop_env l (ok done, c) =
    (returned, [], record l { capture = some c; method_task = running })
with_capture stop_env l (err e, c) =
    let stopped = stop stop_env (record l { capture = some c }) in (raised, stopped.1, stopped.2)

-- `start`
unfoldable pub start : BusEnv → StopEnv → Life → Ending × List DBusEvent × Life
start env stop_env l =
    if l.monitor.running
    then (returned, [], l)
    else if env.is_sqlite && not env.maintains
    then (raised, [], record l { executor = true })
    else if l.monitor.config.capture_methods
    then with_capture stop_env (begin_dispatch env l)
        (Startup.start env.capture (init l.monitor.config env.unique_name))
    else (returned, [], begin_dispatch env l)
