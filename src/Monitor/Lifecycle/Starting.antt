-- ===== src/Monitor/Lifecycle/Starting.antt =====
-- How `start` of src/dbus_event_log/monitor.py ends.
use dbus_event_log.Prelude.{
  ℕ, ◌≡◌, refl, ◌∙◌, String, Bool, true, false, not, ◌&&◌, some, List, [], ◌∷◌, if_elim, arith,
}
use dbus_event_log.Names.{drop_last, ends_with_star}
use dbus_event_log.Event.{DBusEvent}
use dbus_event_log.Capture.{Capture, CaptureError, Result, ok, err, init}
use dbus_event_log.Capture.Startup
use dbus_event_log.Monitor.{Monitor, setup_signal_handlers}
use dbus_event_log.Monitor.Lifecycle.{
  Life, running, BusEnv, StopEnv, Ending, returned, raised, setup_all, discover_services,
  subscribe_to_service, subscribe_to_services, subscribe_to_name_changes, begin_dispatch,
  with_capture, stop, start,
}
use dbus_event_log.Monitor.Lifecycle.Idle.{IsIdle, stop-EndsIdle}

setup_all-running :
    (calls : String → ℕ) (l : List String) (m : Monitor) → (setup_all calls l m).running ≡ m.running
unfolding setup_all setup_signal_handlers
setup_all-running calls [] m = refl
setup_all-running calls (s ∷ rest) m =
    setup_all-running calls rest (setup_signal_handlers (calls s) s m)

subscribe_to_service-running :
    (env : BusEnv) (pattern : String) (m : Monitor)
    → (subscribe_to_service env pattern m).running ≡ m.running
unfolding subscribe_to_service
subscribe_to_service-running env pattern m =
    if_elim (λ (r : Monitor). r.running ≡ m.running) (ends_with_star pattern)
      (λ _.
        setup_all-running env.subscribe_calls (discover_services env.names (drop_last pattern)) m)
      (λ _. setup_all-running env.subscribe_calls (pattern ∷ []) m)

subscribe_to_services-running :
    (env : BusEnv) (l : List String) (m : Monitor)
    → (subscribe_to_services env l m).running ≡ m.running
unfolding subscribe_to_services
subscribe_to_services-running env [] m = refl
subscribe_to_services-running env (p ∷ rest) m =
    subscribe_to_services-running env rest (subscribe_to_service env p m)
    ∙ subscribe_to_service-running env p m

subscribe_to_name_changes-running :
    (works : Bool) (m : Monitor) → (subscribe_to_name_changes works m).running ≡ m.running
unfolding subscribe_to_name_changes
subscribe_to_name_changes-running works m = ground arith

-- The start of the method capture.
abbrev pub capture_start : BusEnv → Life → Result (Unit {0}) × Capture
capture_start env l = Startup.start env.capture (init l.monitor.config env.unique_name)

-- It does not run yet, and the first maintenance, if there is one, works.
pub record CanStart (env : BusEnv) (l : Life) : Type 0 where
  pub idle : l.monitor.running ≡ false
  pub maintained : (env.is_sqlite && not env.maintains) ≡ false

-- The capture of a monitor that started: as configured.
pub record HasCapture (env : BusEnv) (l r : Life) : Type 0 where
  pub asked :
      l.monitor.config.capture_methods ≡ true
      → (c : Capture) × (capture_start env l ≡ (ok tt, c))
        × (r.capture ≡ some c)
        × (r.method_task ≡ running)
  pub unasked :
      l.monitor.config.capture_methods ≡ false
      → (r.capture ≡ l.capture) × (r.method_task ≡ l.method_task)

-- The ways in which a start ends.
pub data StartEnds (env : BusEnv) (l : Life) : Ending × List DBusEvent × Life → Type 0 where
  already : l.monitor.running ≡ true → StartEnds env l (returned, [], l)
  unmaintained :
      l.monitor.running ≡ false
      → env.is_sqlite ≡ true
      → env.maintains ≡ false
      → StartEnds env l (raised, [], record l { executor = true })
  started :
      (r : Life)
      → CanStart env l
      → r.monitor.running ≡ true
      → r.dispatch_task ≡ true
      → r.maintenance_stop ≡ false
      → (env.is_sqlite ≡ true → r.maintenance_task ≡ true)
      → HasCapture env l r
      → StartEnds env l (returned, [], r)
  refused :
      (recorded : List DBusEvent) (e : CaptureError) (c : Capture) (r : Life)
      → CanStart env l
      → l.monitor.config.capture_methods ≡ true
      → capture_start env l ≡ (err e, c)
      → IsIdle (record (begin_dispatch env l) { capture = some c }) r
      → StartEnds env l (raised, recorded, r)

begin_dispatch-running : (env : BusEnv) (l : Life) → (begin_dispatch env l).monitor.running ≡ true
unfolding begin_dispatch
begin_dispatch-running env l =
    let running = record l.monitor { running = true } in
    subscribe_to_services-running env l.monitor.config.services
      (subscribe_to_name_changes env.name_changes running)
    ∙ subscribe_to_name_changes-running env.name_changes running

with_capture-StartEnds :
    (env : BusEnv) (stop_env : StopEnv) (l : Life) (r : Result (Unit {0}) × Capture)
    → capture_start env l ≡ r
    → CanStart env l
    → l.monitor.config.capture_methods ≡ true
    → ((key : String) → stop_env.unsubscribes key ≡ true)
    → stop_env.closes ≡ true
    → stop_env.lookup_closes ≡ true
    → StartEnds env l (with_capture stop_env (begin_dispatch env l) r)
unfolding begin_dispatch
with_capture-StartEnds env stop_env l (ok tt, c) same can asked unsubscribes closes lookup_closes =
    started (record (begin_dispatch env l) { capture = some c; method_task = running }) can
      (begin_dispatch-running env l) refl refl (λ sqlite. ground (arith, sqlite))
      (record {
        asked = λ _. (c, same, refl, refl);
        unasked = λ off. absurd (ground (arith, off, asked));
      })
with_capture-StartEnds env stop_env l (err e, c) same can asked unsubscribes closes lookup_closes =
    let stopped = stop stop_env (record (begin_dispatch env l) { capture = some c }) in
    refused stopped.1 e c stopped.2 can asked same
      (stop-EndsIdle stop_env (record (begin_dispatch env l) { capture = some c }) unsubscribes
        closes lookup_closes).1

-- `start` in any state of the monitor does nothing exactly if it runs; raises before anything is
-- subscribed to exactly if it does not run and the first maintenance of SQLite fails; or else
-- returns with the monitor running, dispatching and, on SQLite, maintaining, and with the capture
-- that its start gave if that is configured; or raises because the configured capture cannot start,
-- and then what was subscribed is unsubscribed and nothing is left. The hypotheses: unsubscribing
-- raises nothing and closing a connection of the capture neither.
pub start-StartEnds :
    (env : BusEnv) (stop_env : StopEnv) (l : Life)
    → ((key : String) → stop_env.unsubscribes key ≡ true)
    → stop_env.closes ≡ true
    → stop_env.lookup_closes ≡ true
    → StartEnds env l (start env stop_env l)
unfolding start begin_dispatch
start-StartEnds env stop_env l unsubscribes closes lookup_closes =
    if_elim (StartEnds env l) l.monitor.running already (λ idle.
      if_elim (StartEnds env l) (env.is_sqlite && not env.maintains)
        (λ failed. unmaintained idle (ground (arith, failed)) (ground (arith, failed)))
        (λ maintained.
          if_elim (StartEnds env l) l.monitor.config.capture_methods
            (λ asked.
              with_capture-StartEnds env stop_env l (capture_start env l) refl
                (record { idle = idle; maintained = maintained }) asked unsubscribes closes
                lookup_closes)
            (λ off.
              started (begin_dispatch env l) (record { idle = idle; maintained = maintained })
                (begin_dispatch-running env l) refl refl (λ sqlite. ground (arith, sqlite))
                (record {
                  asked = λ asked. absurd (ground (arith, off, asked));
                  unasked = λ _. (refl, refl);
                }))))
