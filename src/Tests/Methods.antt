-- ===== src/Tests/Methods.antt =====
-- The task `_dispatch_methods` of src/dbus_event_log/monitor.py, and the start of a capture, at
-- concrete inputs.
use dbus_event_log.Prelude.{◌≡◌, refl, true, false, none, some, [], ◌∷◌, arith, string_eq, pair_eq}
use dbus_event_log.Dict
use dbus_event_log.Capture.{ok, matches}
use dbus_event_log.Capture.Decode.{
  decode, expire, method_call, is_wanted, service_of, caller, call_event as make_event,
  tracked_copy, track, destination_names,
}
use dbus_event_log.Capture.Poll.{continue, dequeue}
use dbus_event_log.Capture.Order.{decode_each}
use dbus_event_log.Capture.Startup.{StartEnv, start}
use dbus_event_log.Monitor.Methods.{Methods, dispatch_methods}
use dbus_event_log.Monitor.Methods.Drain.{IsStopped, dispatch_methods-finished}
use dbus_event_log.Monitor.Methods.Whole.{IsDrained, dispatch_methods-IsDrained}
use dbus_event_log.Config.{default_dbus}
use dbus_event_log.Monitor.{new_monitor, owner_changed}
use dbus_event_log.Monitor.Lifecycle
use dbus_event_log.Monitor.Lifecycle.{absent, running, Life, BusEnv, StopEnv}
use dbus_event_log.Monitor.Lifecycle.Starting.{StartEnds, start-StartEnds}
use dbus_event_log.Tests.Capture.Samples.{env, call_message, ready, awaiting, call_event}

-- One call is still queued.
abbrev stopped : Methods
stopped = record {
  running = false;
  capture = record ready {
    queue = record { timestamp = 1; message = call_message; size = 56 } ∷ [];
    queued_bytes = 56;
  };
  recorded = [];
  failed = false;
  finished = false;
}

stopped-IsStopped : IsStopped stopped
stopped-IsStopped = record { running = refl; connection = refl }

dispatch_methods-finished_example :
    (dispatch_methods 2 (λ e. false) (λ n. env) stopped).finished ≡ true
dispatch_methods-finished_example =
    dispatch_methods-finished 2 (λ e. false) (λ n. env) stopped stopped-IsStopped (omega arith)

whole :
    decode_each 1 (λ n. env) stopped.capture.queue stopped.capture
    ≡ (ok (call_event ∷ []), awaiting)
unfolding decode_each continue dequeue decode expire method_call is_wanted service_of caller
    make_event tracked_copy track matches destination_names Dict.get Dict.put Dict.move_to_end
whole = refl

dispatch_methods-IsDrained_example :
    IsDrained stopped (call_event ∷ []) awaiting (dispatch_methods 2 (λ e. true) (λ n. env) stopped)
dispatch_methods-IsDrained_example =
    dispatch_methods-IsDrained 2 (λ e. true) (λ n. env) stopped (call_event ∷ []) awaiting
      stopped-IsStopped refl refl (λ e. refl) whole (omega arith)

abbrev willing : StartEnv
willing = record {
  has_gio = true;
  lookup = some (record { unique_name = ":1.1"; is_closed = false });
  connection = some (record { unique_name = ":1.2"; is_closed = false });
  filter_id = 4;
  before = [];
  becomes_monitor = true;
  during =
      (
        1,
        true,
        record call_message {
          sender = some ":1.1";
          destination = some "org.freedesktop.DBus";
          member = some "GetId";
        },
      )
      ∷ [];
  names = some [];
  owner_of = λ name. none;
  id_answers = true;
  closes = true;
  lookup_closes = true;
}

abbrev idle : Life
idle = record {
  monitor = new_monitor default_dbus;
  maintenance_stop = false;
  maintenance_task = false;
  dispatch_task = false;
  method_task = absent;
  executor = false;
  capture = none;
  unsubscribed = [];
  dropped = none;
}

-- A call is still queued and a change of owners waits.
abbrev busy : Life
busy = record {
  monitor = record (new_monitor default_dbus) {
    running = true;
    subscriptions = "dbus" ∷ [];
    event_tasks = owner_changed "com.victronenergy.battery" ":1.9" "" ∷ [];
  };
  maintenance_stop = false;
  maintenance_task = true;
  dispatch_task = true;
  method_task = running;
  executor = true;
  capture = some stopped.capture;
  unsubscribed = [];
  dropped = none;
}

abbrev bus : BusEnv
bus = record {
  is_sqlite = true;
  maintains = true;
  name_changes = true;
  names = some ("com.victronenergy.battery" ∷ []);
  subscribe_calls = λ service. 4;
  unique_name = ":1.3";
  capture = willing;
}

abbrev clean : StopEnv
clean = record {
  unsubscribes = λ key. true;
  closes = true;
  lookup_closes = true;
  stores = λ e. true;
  decoding = λ n. env;
  tasks = λ n. record { now = 5; new_id = n; subscribe_calls = 0; stores = true };
}

start-StartEnds_example : StartEnds bus idle (Lifecycle.start bus clean idle)
start-StartEnds_example = start-StartEnds bus clean idle (λ key. refl) refl refl
