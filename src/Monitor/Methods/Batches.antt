-- ===== src/Monitor/Methods/Batches.antt =====
-- The batches of `poll` within the whole queue, for `_dispatch_methods` of
-- src/dbus_event_log/monitor.py.
use dbus_event_log.Prelude.{
  ℕ, zero, suc, ◌+◌, ◌-◌, ◌≤◌, ◌<◌, ◌≡◌, ◌≢◌, refl, ap, sym, ◌∙◌, false, ◌&&◌, List, [], ◌∷◌, ◌++◌,
  length, length-append, drop, Option, none, some, arith,
}
use dbus_event_log.Event.{DBusEvent}
use dbus_event_log.Capture.{Capture, Queued, Result, ok, err}
use dbus_event_log.Capture.Decode.{Env, decode}
use dbus_event_log.Capture.Poll.{
  poll, dequeue, continue, prepend, add_event, poll_rounds, batch_limit, is_gone,
}
use dbus_event_log.Capture.Order.{
  batch, decode_each, continue-cong, batch_prefix, decode_each-queue, poll-decodes_batch,
  poll-queue,
}
use dbus_event_log.Monitor.Methods.{batch_env}

-- A batch decodes with the environment of the whole queue.
decode_each-batch_env :
    (n r s : ℕ) (env : ℕ → Env) (l : List Queued) (c : Capture)
    → n + r ≡ s + poll_rounds
    → length l ≤ r
    → length l ≤ s
    → decode_each r (batch_env env n) l c ≡ decode_each s env l c
unfolding decode_each
decode_each-batch_env n r s env [] c e lr ls = refl
decode_each-batch_env n zero s env (q ∷ l) c e lr ls = absurd (omega (arith, lr))
decode_each-batch_env n (suc r) zero env (q ∷ l) c e lr ls = absurd (omega (arith, ls))
decode_each-batch_env n (suc r) (suc s) env (q ∷ l) c e lr ls =
    let same : (n + r) - poll_rounds ≡ s = omega (arith, e) in
    let first = λ (i : ℕ). decode (env i) q.timestamp q.message (dequeue c q (drop 1 c.queue)) in
    ap (λ i. continue (first i) (decode_each r (batch_env env n) l)) same
    ∙ continue-cong (first s) (decode_each r (batch_env env n) l) (decode_each s env l) (
        decode_each-batch_env n r s env l (first s).1 (omega (arith, e)) (omega (arith, lr))
          (omega (arith, ls)))

-- Decoding two runs of messages one after the other.
record Parts (s t : ℕ) (env : ℕ → Env) (a b : List Queued) (c : Capture) (events : List DBusEvent)
    (last : Capture) : Type 0 where
  first : List DBusEvent
  second : List DBusEvent
  middle : Capture
  left : decode_each s env a c ≡ (ok first, middle)
  right : decode_each t env b middle ≡ (ok second, last)
  glue : events ≡ first ++ second

add_event-append :
    (o : Option DBusEvent) (a b : List DBusEvent) → add_event o (a ++ b) ≡ add_event o a ++ b
add_event-append none a b = refl
add_event-append (some e) a b = refl

-- A loop that ends well: the step and the rest did.
record Continued (step : Result (Option DBusEvent) × Capture)
    (f : Capture → Result (List DBusEvent) × Capture) (events : List DBusEvent) (last : Capture)
    : Type 0 where
  event : Option DBusEvent
  later : List DBusEvent
  stepped : step.0 ≡ ok event
  rest : f step.1 ≡ (ok later, last)
  glue : events ≡ add_event event later

continue-Continued :
    (step : Result (Option DBusEvent) × Capture) (f : Capture → Result (List DBusEvent) × Capture)
    (events : List DBusEvent) (last : Capture)
    → continue step f ≡ (ok events, last)
    → Continued step f events last
unfolding continue
continue-Continued (err e, c) f events last h = absurd (ground (arith, ap (λ r. r.0) h))
continue-Continued (ok o, c) f events last h = by_rest (f c) refl h
  where
    by_rest :
        (r : Result (List DBusEvent) × Capture)
        → f c ≡ r
        → prepend o r ≡ (ok events, last)
        → Continued (ok o, c) f events last
    by_rest (err e, d) same k = absurd (ground (arith, ap (λ r. r.0) k))
    by_rest (ok l, d) same k = record {
      event = o;
      later = l;
      stepped = refl;
      rest = same ∙ ap (λ x. (ok l, x)) (ap (λ r. r.1) k);
      glue = ground (arith, ap (λ r. r.0) k);
    }

decode_each-Parts :
    (s t : ℕ) (env : ℕ → Env) (a b : List Queued) (c : Capture) (events : List DBusEvent)
    (last : Capture)
    → s ≡ t + length a
    → decode_each s env (a ++ b) c ≡ (ok events, last)
    → Parts s t env a b c events last
unfolding decode_each
decode_each-Parts s t env [] b c events last e h = record {
  first = [];
  second = events;
  middle = c;
  left = refl;
  right = ap (λ i. decode_each i env b c) (omega (arith, e)) ∙ h;
  glue = refl;
}
decode_each-Parts zero t env (q ∷ a) b c events last e h = absurd (omega (arith, e))
decode_each-Parts (suc s) t env (q ∷ a) b c events last e h =
    let step = decode (env s) q.timestamp q.message (dequeue c q (drop 1 c.queue)) in
    let k = continue-Continued step (decode_each s env (a ++ b)) events last h in
    let p = decode_each-Parts s t env a b step.1 k.later last (omega (arith, e)) k.rest in
    record {
      first = add_event k.event p.first;
      second = p.second;
      middle = p.middle;
      left = continued step (decode_each s env a) k.event p.first p.middle k.stepped p.left;
      right = p.right;
      glue = k.glue ∙ ap (add_event k.event) p.glue ∙ add_event-append k.event p.first p.second;
    }
  where
    continued :
        (step : Result (Option DBusEvent) × Capture)
        (f : Capture → Result (List DBusEvent) × Capture) (o : Option DBusEvent)
        (l : List DBusEvent) (d : Capture)
        → step.0 ≡ ok o
        → f step.1 ≡ (ok l, d)
        → continue step f ≡ (ok (add_event o l), d)
    continued step f o l d e1 e2 =
        unfold continue in ap (λ x. continue (x, step.1) f) e1 ∙ ap (prepend o) e2

-- The first batch of a queue that is not empty, and what it leaves to be decoded.
pub record FirstBatch (env : ℕ → Env) (c : Capture) (events : List DBusEvent) (last : Capture)
    : Type 0 where
  pub rest : List Queued
  pub first : List DBusEvent
  pub second : List DBusEvent
  pub middle : Capture
  pub polled : poll (batch_env env (length c.queue)) c ≡ (ok first, middle)
  pub queue : middle.queue ≡ rest
  pub right : decode_each (length rest) env rest middle ≡ (ok second, last)
  pub glue : events ≡ first ++ second
  pub shorter : length rest < length c.queue

pub first_batch :
    (env : ℕ → Env) (c : Capture) (events : List DBusEvent) (last : Capture)
    → c.queue ≢ []
    → c.overflow ≡ false
    → c.connection ≡ none
    → decode_each (length c.queue) env c.queue c ≡ (ok events, last)
    → FirstBatch env c events last
first_batch env c events last some_left flow closed whole =
    let n = length c.queue in
    let l = batch (batch_limit c) poll_rounds 0 c.queue in
    let rest = drop (length l) c.queue in
    let split = batch_prefix (batch_limit c) poll_rounds 0 c.queue in
    let sizes : n ≡ length rest + length l =
      omega (arith, ap length split.1, length-append l rest) in
    let open_ : (c.ready && is_gone c.connection) ≡ false = ground (arith, closed) in
    let p =
      decode_each-Parts n (length rest) env l rest c events last sizes
        (ap (λ x. decode_each n env x c) split.1 ∙ whole) in
    let polled =
      poll-decodes_batch (batch_env env n) c flow open_
      ∙ decode_each-batch_env n poll_rounds n env l c refl split.0 (omega (arith, sizes))
      ∙ p.left in
    let queue =
      ap (λ (r : Result (List DBusEvent) × Capture). r.1.queue) (sym p.left)
      ∙ decode_each-queue n env l rest c p.first (omega (arith, sizes)) (sym split.1)
          (ap (λ (r : Result (List DBusEvent) × Capture). r.0) p.left) in
    let less =
      (poll-queue (batch_env env n) c p.first
          (ap (λ (r : Result (List DBusEvent) × Capture). r.0) polled)).1
        some_left in
    record {
      rest = rest;
      first = p.first;
      second = p.second;
      middle = p.middle;
      polled = polled;
      queue = queue;
      right = p.right;
      glue = p.glue;
      shorter = omega (
        arith,
        less,
        ap (λ (r : Result (List DBusEvent) × Capture). length r.1.queue) polled,
        ap length queue,
      );
    }
