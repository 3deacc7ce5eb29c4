-- ===== src/Capture/Order.antt =====
-- `poll` of src/dbus_event_log/method_capture.py against a description that fixes its batch first.
use dbus_event_log.Prelude.{
  ℕ, zero, suc, ◌+◌, ◌≤◌, ◌<◌, ◌≡◌, ◌≢◌, refl, ◌⊎◌, inl, inr, true, false, List, [], ◌∷◌, ◌++◌,
  arith, length, drop, List-cases, Bool-cases, Option, ap, sym, ◌∙◌, ◌&&◌, All, length-append,
}
use dbus_event_log.Event.{DBusEvent}
use dbus_event_log.Capture.{Capture, Queued, Result, ok, err}
use dbus_event_log.Capture.Decode.{Env, decode}
use dbus_event_log.Capture.Poll.{
  poll, poll_loop, dequeue, continue, prepend, batch_ends, batch_limit, poll_rounds, is_gone,
}
use dbus_event_log.Capture.Bounds.{queued_size, queued_size-append}
use dbus_event_log.Capture.Frames.{decode-SameQueue}

-- The messages that a batch takes, by their sizes alone: a prefix of at most `rounds`, ended
-- before the message that would pass the limit, unless it is the first.
unfoldable pub batch : ℕ → ℕ → ℕ → List Queued → List Queued
batch limit zero bytes l = []
batch limit (suc rounds) bytes [] = []
batch limit (suc rounds) bytes (q ∷ rest) =
    let more = batch limit rounds (bytes + q.size) rest in
    elim (batch_ends limit bytes q) [ true ↦ [] | false ↦ q ∷ more ]

-- Decode these messages, which stand at the head of the queue, one after the other.
unfoldable pub decode_each :
    ℕ → (ℕ → Env) → List Queued → Capture → Result (List DBusEvent) × Capture
decode_each rounds env [] c = (ok [], c)
decode_each zero env (q ∷ rest) c = (ok [], c)
decode_each (suc rounds) env (q ∷ rest) c =
    continue (decode (env rounds) q.timestamp q.message (dequeue c q (drop 1 c.queue)))
      (decode_each rounds env rest)

pub continue-cong :
    (step : Result (Option DBusEvent) × Capture) (f g : Capture → Result (List DBusEvent) × Capture)
    → f step.1 ≡ g step.1
    → continue step f ≡ continue step g
unfolding continue
continue-cong (err e, c) f g h = refl
continue-cong (ok o, c) f g h = ap (prepend o) h

poll_loop-eq :
    (limit rounds : ℕ) (env : ℕ → Env) (bytes : ℕ) (c : Capture)
    → poll_loop limit rounds env bytes c
      ≡ decode_each rounds env (batch limit rounds bytes c.queue) c
unfolding poll_loop batch decode_each
poll_loop-eq limit zero env bytes c = refl
poll_loop-eq limit (suc rounds) env bytes c = elim (List-cases c.queue) [
  | inl e ↦ simp (e, poll_loop, batch, decode_each)
  | inr (q, rest, e) ↦ elim (Bool-cases (batch_ends limit bytes q)) [
    | inl full ↦ simp (e, poll_loop, batch, full, decode_each)
    | inr more ↦
        let step = decode (env rounds) q.timestamp q.message (dequeue c q rest) in
        let next = poll_loop limit rounds env (bytes + q.size) in
        let same = (decode-SameQueue (env rounds) q.timestamp q.message (dequeue c q rest)).queue in
        simp (e, poll_loop, batch, more, decode_each)
          (continue-cong step next
            (decode_each rounds env (batch limit rounds (bytes + q.size) rest))
            (poll_loop-eq limit rounds env (bytes + q.size) step.1
              ∙ ap (λ l. decode_each rounds env (batch limit rounds (bytes + q.size) l) step.1)
                  (unfold dequeue in same)))
  ]
]

-- While nothing overflowed and the connection is open, `poll` decodes exactly its batch, in the
-- order of the queue.
pub poll-decodes_batch :
    (env : ℕ → Env) (c : Capture)
    → c.overflow ≡ false
    → c.ready && is_gone c.connection ≡ false
    → poll env c ≡ decode_each poll_rounds env (batch (batch_limit c) poll_rounds 0 c.queue) c
unfolding poll
poll-decodes_batch env c o r = simp (o, r) (poll_loop-eq (batch_limit c) poll_rounds env 0 c)

-- The batch is a prefix of the queue of at most `rounds` messages.
pub batch_prefix :
    (limit rounds bytes : ℕ) (l : List Queued)
    → (length (batch limit rounds bytes l) ≤ rounds)
      × (batch limit rounds bytes l ++ drop (length (batch limit rounds bytes l)) l ≡ l)
unfolding batch
batch_prefix limit zero bytes l = (omega arith, refl)
batch_prefix limit (suc rounds) bytes [] = (omega arith, refl)
batch_prefix limit (suc rounds) bytes (q ∷ rest) =
    let ih = batch_prefix limit rounds (bytes + q.size) rest in
    elim (Bool-cases (batch_ends limit bytes q)) [
      | inl full ↦ rw (batch, full) (omega arith, refl)
      | inr more ↦ rw (batch, more) (omega arith, ap (◌∷◌ q) ih.1)
    ]

-- A further message only comes along while the total stays within the limit.
batch_more_bytes :
    (limit rounds bytes : ℕ) (l : List Queued)
    → 0 < bytes
    → All (λ (q : Queued). 0 < q.size) l
    → (bytes + queued_size (batch limit rounds bytes l) ≤ limit) ⊎ (batch limit rounds bytes l ≡ [])
unfolding batch
batch_more_bytes limit zero bytes l p h = inr refl
batch_more_bytes limit (suc rounds) bytes [] p h = inr refl
batch_more_bytes limit (suc rounds) bytes (q ∷ rest) p h =
    ground (arith, batch_more_bytes limit rounds (bytes + q.size) rest (omega arith) h.1)

batch_taken :
    (limit rounds : ℕ) (l : List Queued) → l ≢ [] → 0 < length (batch limit (suc rounds) 0 l)
unfolding batch
batch_taken limit rounds [] h = absurd (h refl)
batch_taken limit rounds (q ∷ rest) h = ground arith

-- A batch of sized messages stays within the byte limit, unless it is a single message; it takes
-- at most `rounds` messages, and at least one from a queue that is not empty.
pub batch_bounds :
    (limit rounds : ℕ) (l : List Queued)
    → All (λ (q : Queued). 0 < q.size) l
    → ((queued_size (batch limit (suc rounds) 0 l) ≤ limit)
        ⊎ (length (batch limit (suc rounds) 0 l) ≤ 1))
      × (length (batch limit (suc rounds) 0 l) ≤ suc rounds)
      × (l ≢ [] → 0 < length (batch limit (suc rounds) 0 l))
batch_bounds limit rounds l h =
    (bytes l h, (batch_prefix limit (suc rounds) 0 l).0, batch_taken limit rounds l)
  where
    bytes :
        (l : List Queued)
        → All (λ (q : Queued). 0 < q.size) l
        → (queued_size (batch limit (suc rounds) 0 l) ≤ limit)
          ⊎ (length (batch limit (suc rounds) 0 l) ≤ 1)
    bytes [] h = unfold batch in inr (omega arith)
    bytes (q ∷ rest) h =
        unfold batch in ground (arith, batch_more_bytes limit rounds q.size rest h.0 h.1)

prepend_ok :
    (o : Option DBusEvent) (r : Result (List DBusEvent) × Capture) (events : List DBusEvent)
    → (prepend o r).0 ≡ ok events
    → ((rest : List DBusEvent) × (r.0 ≡ ok rest)) × ((prepend o r).1 ≡ r.1)
prepend_ok o (ok es, c) events h = ((es, refl), refl)
prepend_ok o (err e, c) events h = cc

-- A loop that ends well did so in the rest of the loop too.
continue_ok :
    (step : Result (Option DBusEvent) × Capture) (f : Capture → Result (List DBusEvent) × Capture)
    (events : List DBusEvent)
    → (continue step f).0 ≡ ok events
    → ((rest : List DBusEvent) × ((f step.1).0 ≡ ok rest)) × ((continue step f).1 ≡ (f step.1).1)
unfolding continue
continue_ok (err e, c) f events h = cc
continue_ok (ok o, c) f events h = prepend_ok o (f c) events h

-- Decoding that raises nothing takes just those messages off the queue.
pub decode_each-queue :
    (rounds : ℕ) (env : ℕ → Env) (l rest : List Queued) (c : Capture) (events : List DBusEvent)
    → length l ≤ rounds
    → c.queue ≡ l ++ rest
    → (decode_each rounds env l c).0 ≡ ok events
    → (decode_each rounds env l c).1.queue ≡ rest
unfolding decode_each
decode_each-queue rounds env [] rest c events n e h = e
decode_each-queue zero env (q ∷ l) rest c events n e h = absurd (omega arith)
decode_each-queue (suc rounds) env (q ∷ l) rest c events n e h =
    let after = drop 1 c.queue in
    let step = decode (env rounds) q.timestamp q.message (dequeue c q after) in
    let same = (decode-SameQueue (env rounds) q.timestamp q.message (dequeue c q after)).queue in
    let ((es, r), s) = continue_ok step (decode_each rounds env l) events h in
    ap (λ (d : Capture). d.queue) s
    ∙ decode_each-queue rounds env l rest step.1 es (omega arith)
        (same ∙ unfold dequeue in ap (drop 1) e) r

poll_ok :
    (env : ℕ → Env) (c : Capture) (events : List DBusEvent)
    → (poll env c).0 ≡ ok events
    → poll env c ≡ decode_each poll_rounds env (batch (batch_limit c) poll_rounds 0 c.queue) c
unfolding poll
poll_ok env c events h = ground (arith, poll_loop-eq (batch_limit c) poll_rounds env 0 c)

-- A `poll` that raises nothing takes exactly its batch off the queue: nothing is skipped and
-- nothing is decoded twice. From a queue that is not empty it takes at least one message, so a
-- consumer that goes on polling empties the queue.
pub poll-queue :
    (env : ℕ → Env) (c : Capture) (events : List DBusEvent)
    → (poll env c).0 ≡ ok events
    → (batch (batch_limit c) poll_rounds 0 c.queue ++ (poll env c).1.queue ≡ c.queue)
      × (c.queue ≢ [] → length (poll env c).1.queue < length c.queue)
poll-queue env c events h =
    let l = batch (batch_limit c) poll_rounds 0 c.queue in
    let whole = poll_ok env c events h in
    let split = batch_prefix (batch_limit c) poll_rounds 0 c.queue in
    let left =
      ap (λ (r : Result (List DBusEvent) × Capture). r.1.queue) whole
      ∙ decode_each-queue poll_rounds env l (drop (length l) c.queue) c events split.0 (sym split.1)
          (ap (λ (r : Result (List DBusEvent) × Capture). r.0) (sym whole) ∙ h) in
    let glue : l ++ (poll env c).1.queue ≡ c.queue = ap (◌++◌ l) left ∙ split.1 in
    (
      glue,
      λ some_left. omega (
        arith,
        ap length glue,
        length-append l (poll env c).1.queue,
        batch_taken (batch_limit c) 63 c.queue some_left,
      ),
    )

-- A `poll` that raises nothing decodes at most 64 messages, and, of messages that all have a
-- size, no more bytes than the batch limit unless it decodes a single message.
pub poll_bounds :
    (env : ℕ → Env) (c : Capture) (events : List DBusEvent)
    → All (λ (q : Queued). 0 < q.size) c.queue
    → (poll env c).0 ≡ ok events
    → (length c.queue ≤ length (poll env c).1.queue + poll_rounds)
      × ((queued_size c.queue ≤ queued_size (poll env c).1.queue + batch_limit c)
          ⊎ (length c.queue ≤ length (poll env c).1.queue + 1))
poll_bounds env c events sized h =
    let l = batch (batch_limit c) poll_rounds 0 c.queue in
    let glue = (poll-queue env c events h).0 in
    let after = (poll env c).1.queue in
    let bounds = batch_bounds (batch_limit c) 63 c.queue sized in
    let counted = ap length glue in
    let summed = ap queued_size glue in
    (
      omega (arith, counted, length-append l after, bounds.1),
      omega (arith, counted, summed, length-append l after, queued_size-append l after, bounds.0),
    )
