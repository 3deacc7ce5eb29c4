-- ===== src/Monitor/Methods/Whole.antt =====
-- What `_dispatch_methods` of src/dbus_event_log/monitor.py records after `stop`: the batches that
-- `poll` makes do not matter.
use dbus_event_log.Prelude.{
  ℕ, zero, suc, ◌<◌, ◌≡◌, refl, ap, sym, ◌∙◌, subst, Bool, true, false, ◌||◌, List, [], ◌∷◌, ◌++◌,
  length, arith, List-cases, inl, inr,
}
use mathlib.Core.List.{append_assoc, append-nil}
use dbus_event_log.Event.{DBusEvent}
use dbus_event_log.Capture.{Capture, Result, ok}
use dbus_event_log.Capture.Decode.{Env}
use dbus_event_log.Capture.Poll.{poll, pending, dequeue}
use dbus_event_log.Capture.Frames.{decode-SameQueue}
use dbus_event_log.Capture.Batches.{poll_inv}
use dbus_event_log.Capture.Order.{decode_each}
use dbus_event_log.Monitor.Methods.{
  Methods, store_each, record_batch, after_poll, goes_on, batch_env, pass, dispatch_methods,
}
use dbus_event_log.Monitor.Methods.Drain.{IsStopped, poll-connection, dispatch_finished}
use dbus_event_log.Monitor.Methods.Batches.{first_batch}

store_each-all :
    (stores : DBusEvent → Bool) (l : List DBusEvent)
    → ((e : DBusEvent) → stores e ≡ true)
    → store_each stores l ≡ (l, true)
unfolding store_each
store_each-all stores [] all = refl
store_each-all stores (e ∷ l) all =
    rw (all e) (ap (λ (r : List DBusEvent × Bool). (e ∷ r.0, r.1)) (store_each-all stores l all))

poll-overflow : (env : ℕ → Env) (c : Capture) → c.overflow ≡ false → (poll env c).1.overflow ≡ false
unfolding dequeue
poll-overflow env c h =
    poll_inv (λ (d : Capture). d.overflow ≡ false)
      (λ e d q rest _ kept.
        (decode-SameQueue e q.timestamp q.message (dequeue d q rest)).overflow ∙ kept)
      env c h

-- A finished task that has recorded these events on top of what was there.
pub record IsDrained (m : Methods) (events : List DBusEvent) (last : Capture) (r : Methods)
    : Type 0 where
  pub finished : r.finished ≡ true
  pub capture : r.capture ≡ last
  pub recorded : r.recorded ≡ m.recorded ++ events
  pub failed : r.failed ≡ m.failed

-- A stopped task whose pass decodes and stores a first part of the queue.
pass-recorded :
    (stores : DBusEvent → Bool) (env : ℕ → Env) (m : Methods) (events : List DBusEvent)
    (c : Capture)
    → ((e : DBusEvent) → stores e ≡ true)
    → goes_on m ≡ true
    → poll (batch_env env (length m.capture.queue)) m.capture ≡ (ok events, c)
    → pass stores env m ≡ record m {
      capture = c;
      recorded = m.recorded ++ events;
      failed = m.failed || false;
      finished = false;
    }
unfolding pass
pass-recorded stores env m events c all on polled =
    rw on
      (ap (after_poll stores m) polled ∙ ap (record_batch m c) (store_each-all stores events all))

-- One more pass of a task that is not finished.
next_pass :
    (passes : ℕ) (stores : DBusEvent → Bool) (env : ℕ → Env) (m : Methods)
    → m.finished ≡ false
    → dispatch_methods (suc passes) stores env m
      ≡ dispatch_methods passes stores env (pass stores env m)
unfolding dispatch_methods
next_pass passes stores env m h = rw h refl

pass-IsDrained :
    (passes : ℕ) (stores : DBusEvent → Bool) (env : ℕ → Env) (m : Methods) (events : List DBusEvent)
    (last : Capture)
    → goes_on m ≡ false
    → decode_each 0 env [] m.capture ≡ (ok events, last)
    → IsDrained m events last (dispatch_methods passes stores env (pass stores env m))
unfolding pass decode_each
pass-IsDrained passes stores env m events last off h =
    let done = record m { finished = true } in
    let same : pass stores env m ≡ done = rw off refl in
    let none_left : events ≡ [] = ground (arith, ap (λ r. r.0) h) in
    subst (IsDrained m events last)
      (sym (
        ap (dispatch_methods passes stores env) same
        ∙ dispatch_finished passes stores env done refl))
      (record {
        finished = refl;
        capture = ap (λ r. r.1) h;
        recorded = sym (ap (λ l. m.recorded ++ l) none_left ∙ append-nil m.recorded);
        failed = refl;
      })

goes_on-pending : (m : Methods) → IsStopped m → goes_on m ≡ pending m.capture
goes_on-pending m h = rw (h.running, h.connection) refl

-- Once `stop` has cleared the flag and closed the connection, a task that is not finished yet, with
-- no overflow, records exactly the events of the whole queue, each once and in the order of the
-- messages, wherever `poll` ends its batches; it sets no failure and leaves the capture as decoding
-- the queue leaves it. The hypotheses: decoding the queue raises nothing, the storage takes every
-- event, and there is one pass more than there are messages.
pub dispatch_methods-IsDrained :
    (passes : ℕ) (stores : DBusEvent → Bool) (env : ℕ → Env) (m : Methods) (events : List DBusEvent)
    (last : Capture)
    → IsStopped m
    → m.capture.overflow ≡ false
    → m.finished ≡ false
    → ((e : DBusEvent) → stores e ≡ true)
    → decode_each (length m.capture.queue) env m.capture.queue m.capture ≡ (ok events, last)
    → length m.capture.queue < passes
    → IsDrained m events last (dispatch_methods passes stores env m)
dispatch_methods-IsDrained zero stores env m events last stopped flow going all whole enough =
    absurd (omega (arith, enough))
dispatch_methods-IsDrained (suc passes) stores env m events last stopped flow going all whole
      enough =
    subst (IsDrained m events last) (sym (next_pass passes stores env m going))
      (elim (List-cases m.capture.queue) [
        | inl e ↦
            pass-IsDrained passes stores env m events last
              (goes_on-pending m stopped ∙ unfold pending in rw e refl)
              (ap (λ l. decode_each (length l) env l m.capture) (sym e) ∙ whole)
        | inr (q, later, e) ↦
            let b =
              first_batch env m.capture events last (λ empty. ground (arith, e, empty)) flow
                stopped.connection whole in
            let next = record m {
              capture = b.middle;
              recorded = m.recorded ++ b.first;
              failed = m.failed || false;
              finished = false;
            } in
            let stepped =
              pass-recorded stores env m b.first b.middle all
                (goes_on-pending m stopped ∙ unfold pending in rw e refl) b.polled in
            let closed =
              ap (λ (r : Result (List DBusEvent) × Capture). r.1.connection) (sym b.polled)
              ∙ poll-connection (batch_env env (length m.capture.queue)) m.capture
                  stopped.connection in
            let calm =
              ap (λ (r : Result (List DBusEvent) × Capture). r.1.overflow) (sym b.polled)
              ∙ poll-overflow (batch_env env (length m.capture.queue)) m.capture flow in
            let rest =
              dispatch_methods-IsDrained passes stores env next b.second last
                (record { running = stopped.running; connection = closed }) calm refl all
                (ap (λ l. decode_each (length l) env l b.middle) b.queue ∙ b.right)
                (omega (arith, b.shorter, ap length b.queue, enough)) in
            subst (IsDrained m events last) (sym (ap (dispatch_methods passes stores env) stepped))
              (record {
                finished = rest.finished;
                capture = rest.capture;
                recorded =
                    rest.recorded
                    ∙ append_assoc m.recorded b.first b.second
                    ∙ ap (λ l. m.recorded ++ l) (sym b.glue);
                failed = rest.failed ∙ ground arith;
              })
      ])
