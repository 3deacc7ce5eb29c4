-- ===== src/Monitor/Methods.antt =====
-- `_dispatch_methods` of src/dbus_event_log/monitor.py: the task that polls the method capture and
-- stores what it gives. Between two passes Gio's thread may fill the queue, until `stop` has closed
-- the connection; from there on the passes follow one another.
pub mod Drain
mod Batches
pub mod Whole
use dbus_event_log.Prelude.{
  ℕ, zero, suc, ◌+◌, ◌-◌, Bool, true, false, not, ◌||◌, List, [], ◌∷◌, ◌++◌, length, is_some,
  if◌then◌else◌,
}
use dbus_event_log.Event.{DBusEvent}
use dbus_event_log.Capture.{Capture, Result, ok, err}
use dbus_event_log.Capture.Decode.{Env}
use dbus_event_log.Capture.Poll.{poll, pending, poll_rounds}

-- What the task works on; `recorded` are the events that the storage and the handler took.
pub record Methods : Type 0 where
  pub running : Bool
  pub capture : Capture
  pub recorded : List DBusEvent
  pub failed : Bool
  pub finished : Bool

-- `_store_event` on each event of a batch, until one raises.
unfoldable pub store_each : (DBusEvent → Bool) → List DBusEvent → List DBusEvent × Bool
store_each stores [] = ([], true)
store_each stores (e ∷ rest) =
    let later = store_each stores rest in if stores e then (e ∷ later.0, later.1) else ([], false)

abbrev pub record_batch : Methods → Capture → List DBusEvent × Bool → Methods
record_batch m c (events, stored) = record m {
  capture = c;
  recorded = m.recorded ++ events;
  failed = m.failed || not stored;
  finished = not stored;
}

abbrev pub after_poll : (DBusEvent → Bool) → Methods → Result (List DBusEvent) × Capture → Methods
after_poll stores m (ok events, c) = record_batch m c (store_each stores events)
after_poll stores m (err e, c) = record m { capture = c; failed = true; finished = true }

-- The condition of the loop.
abbrev pub goes_on : Methods → Bool
goes_on m = m.running || is_some m.capture.connection || pending m.capture

-- The environment of one poll: that of a message depends on how many wait behind it.
abbrev pub batch_env : (ℕ → Env) → ℕ → ℕ → Env
batch_env env waiting rounds = env ((waiting + rounds) - poll_rounds)

-- One pass of the loop, with the handler of an exception.
unfoldable pub pass : (DBusEvent → Bool) → (ℕ → Env) → Methods → Methods
pass stores env m =
    if goes_on m
    then after_poll stores m (poll (batch_env env (length m.capture.queue)) m.capture)
    else record m { finished = true }

-- So many passes, while the task is not finished.
unfoldable pub dispatch_methods : ℕ → (DBusEvent → Bool) → (ℕ → Env) → Methods → Methods
dispatch_methods zero stores env m = m
dispatch_methods (suc passes) stores env m =
    let rest = dispatch_methods passes stores env (pass stores env m) in
    if m.finished then m else rest
