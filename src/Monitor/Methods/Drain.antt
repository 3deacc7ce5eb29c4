-- ===== src/Monitor/Methods/Drain.antt =====
-- How `_dispatch_methods` of src/dbus_event_log/monitor.py empties the queue after `stop`.
use dbus_event_log.Prelude.{
  ℕ, zero, suc, ◌<◌, ◌≡◌, ◌≢◌, refl, ap, ◌∙◌, Bool, true, false, List, [], length, none, if_elim,
  arith,
}
use dbus_event_log.Event.{DBusEvent}
use dbus_event_log.Capture.{Capture, Result, ok, err}
use dbus_event_log.Capture.Decode.{Env}
use dbus_event_log.Capture.Poll.{poll, pending, dequeue}
use dbus_event_log.Capture.Frames.{decode-SameQueue}
use dbus_event_log.Capture.Batches.{poll_inv}
use dbus_event_log.Capture.Order.{poll-queue}
use dbus_event_log.Monitor.Methods.{
  Methods, store_each, record_batch, after_poll, goes_on, batch_env, pass, dispatch_methods,
}

-- `stop` has cleared the flag and closed the connection.
pub record IsStopped (m : Methods) : Type 0 where
  pub running : m.running ≡ false
  pub connection : m.capture.connection ≡ none

pub poll-connection :
    (env : ℕ → Env) (c : Capture) → c.connection ≡ none → (poll env c).1.connection ≡ none
unfolding dequeue
poll-connection env c h =
    poll_inv (λ (d : Capture). d.connection ≡ none)
      (λ e d q rest _ kept.
        (decode-SameQueue e q.timestamp q.message (dequeue d q rest)).connection ∙ kept)
      env c h

pub dispatch_finished :
    (passes : ℕ) (stores : DBusEvent → Bool) (env : ℕ → Env) (m : Methods)
    → m.finished ≡ true
    → dispatch_methods passes stores env m ≡ m
unfolding dispatch_methods
dispatch_finished zero stores env m h = refl
dispatch_finished (suc passes) stores env m h = rw h refl

pending-queue : (c : Capture) → pending c ≡ true → c.queue ≢ []
unfolding pending
pending-queue c h e = ground (arith, h, e)

-- What one pass does to a stopped task: it finishes, or leaves fewer messages.
data Passed (m after : Methods) : Type 0 where
  ended : after.finished ≡ true → Passed m after
  shrunk : IsStopped after → length after.capture.queue < length m.capture.queue → Passed m after

pass-Passed :
    (stores : DBusEvent → Bool) (env : ℕ → Env) (m : Methods)
    → IsStopped m
    → Passed m (pass stores env m)
unfolding pass
pass-Passed stores env m h =
    if_elim (Passed m) (goes_on m)
      (λ on.
        by_result (poll (batch_env env (length m.capture.queue)) m.capture) (waiting on)
          (poll-connection (batch_env env (length m.capture.queue)) m.capture h.connection)
          (λ events e. (poll-queue (batch_env env (length m.capture.queue)) m.capture events e).1))
      (λ _. ended refl)
  where
    waiting : goes_on m ≡ true → m.capture.queue ≢ []
    waiting on = pending-queue m.capture (ground (arith, on, h.running, h.connection))

    by_result :
        (r : Result (List DBusEvent) × Capture)
        → m.capture.queue ≢ []
        → r.1.connection ≡ none
        → ((events : List DBusEvent)
            → r.0 ≡ ok events
            → m.capture.queue ≢ []
            → length r.1.queue < length m.capture.queue)
        → Passed m (after_poll stores m r)
    by_result (err e, c) some_left closed less = ended refl
    by_result (ok events, c) some_left closed less = by_stored (store_each stores events)
      where
        by_stored : (p : List DBusEvent × Bool) → Passed m (record_batch m c p)
        by_stored (l, false) = ended refl
        by_stored (l, true) =
            shrunk (record { running = h.running; connection = closed })
              (less events refl some_left)

-- Once `stop` has cleared the flag and closed the connection, the task finishes: one pass more than
-- there are messages in the queue is enough, whatever the storage and the daemon answer and whether
-- a poll raises or not.
pub dispatch_methods-finished :
    (passes : ℕ) (stores : DBusEvent → Bool) (env : ℕ → Env) (m : Methods)
    → IsStopped m
    → length m.capture.queue < passes
    → (dispatch_methods passes stores env m).finished ≡ true
unfolding dispatch_methods
dispatch_methods-finished zero stores env m h enough = absurd (omega (arith, enough))
dispatch_methods-finished (suc passes) stores env m h enough =
    if_elim (λ (r : Methods). r.finished ≡ true) m.finished (λ done. done)
      (λ _. elim (pass-Passed stores env m h) [
        | ended e ↦
            ap (λ (r : Methods). r.finished)
              (dispatch_finished passes stores env (pass stores env m) e)
            ∙ e
        | shrunk stopped less ↦
            dispatch_methods-finished passes stores env (pass stores env m) stopped
              (omega (arith, less, enough))
      ])
