-- ===== src/Capture/Batches.antt =====
-- Rules for the loop of `poll` (src/dbus_event_log/method_capture.py).
use dbus_event_log.Prelude.{
  ℕ, zero, suc, ◌≡◌, Option, List, ◌∷◌, inl, inr, arith, List-cases, Bool-cases, ◌+◌,
}
use dbus_event_log.Event.{DBusEvent}
use dbus_event_log.Capture.{Capture, Queued, Result, ok, err}
use dbus_event_log.Capture.Decode.{Env, decode}
use dbus_event_log.Capture.Poll.{
  poll, poll_loop, dequeue, continue, prepend, batch_ends, batch_limit, poll_rounds,
}

continue_inv {ℓ} :
    (P : Capture → Type ℓ) (step : Result (Option DBusEvent) × Capture)
    (rest : Capture → Result (List DBusEvent) × Capture)
    → P step.1
    → ((c : Capture) → P c → P (rest c).1)
    → P (continue step rest).1
unfolding continue
continue_inv P (err e, c) rest h keep = h
continue_inv P (ok o, c) rest h keep = by_result (rest c) (keep c h)
  where
    by_result : (r : Result (List DBusEvent) × Capture) → P r.1 → P (prepend o r).1
    by_result (ok events, c') k = k
    by_result (err e, c') k = k

-- An invariant that survives taking one message off the queue and decoding it survives a batch.
module _ {ℓ} (P : Capture → Type ℓ)
    (step : (env : Env) (c : Capture) (q : Queued) (rest : List Queued)
      → c.queue ≡ q ∷ rest
      → P c
      → P (decode env q.timestamp q.message (dequeue c q rest)).1) where
  poll_loop_inv :
      (limit rounds : ℕ) (env : ℕ → Env) (bytes : ℕ) (c : Capture)
      → P c
      → P (poll_loop limit rounds env bytes c).1
  unfolding poll_loop
  poll_loop_inv limit zero env bytes c h = h
  poll_loop_inv limit (suc rounds) env bytes c h = elim (List-cases c.queue) [
    | inl e ↦ rw (e, poll_loop) h
    | inr (q, rest, e) ↦ elim (Bool-cases (batch_ends limit bytes q)) [
      | inl full ↦ rw (e, poll_loop, full) h
      | inr more ↦
          rw (e, poll_loop, more)
            (continue_inv P (decode (env rounds) q.timestamp q.message (dequeue c q rest))
              (poll_loop limit rounds env (bytes + q.size)) (step (env rounds) c q rest e h)
              (poll_loop_inv limit rounds env (bytes + q.size)))
    ]
  ]

  pub poll_inv : (env : ℕ → Env) (c : Capture) → P c → P (poll env c).1
  unfolding poll
  poll_inv env c h = ground (arith, poll_loop_inv (batch_limit c) poll_rounds env 0 c h)
