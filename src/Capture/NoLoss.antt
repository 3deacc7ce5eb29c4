-- ===== src/Capture/NoLoss.antt =====
-- `_filter` of src/dbus_event_log/method_capture.py under bursts of messages.
use dbus_event_log.Prelude.{
  ℕ, ◌+◌, ◌≤◌, ◌≡◌, refl, ◌⊎◌, inl, inr, true, List, [], ◌∷◌, ◌++◌, map, arith, length,
  length-append, All, Option, none, some, sym, ◌∙◌,
}
use mathlib.Core.List.{append_assoc, append-nil}
use dbus_event_log.Capture.{Capture, Message, Queued, Body, message_size, err, capture_overflow}
use dbus_event_log.Capture.Filter.{filter, receive, enqueue, max_body}
use dbus_event_log.Capture.Decode.{Env}
use dbus_event_log.Capture.Poll.{poll}
use dbus_event_log.Capture.Bounds.{queued_size}

abbrev pub entry : ℕ × Message → Queued
entry (now, m) = record { timestamp = now; message = m; size = message_size m }

-- What one observed message does to the fields that matter here.
record Observed (c d : Capture) (x : ℕ × Message) : Type 0 where
  ready : d.ready ≡ true
  outcome :
      ((d.overflow ≡ true) × (d.queue ≡ c.queue))
      ⊎ ((d.overflow ≡ c.overflow) × (d.queue ≡ c.queue ++ entry x ∷ []))
  sticky : c.overflow ≡ true → d.overflow ≡ true

observed :
    (c : Capture) (now : ℕ) (m : Message)
    → c.ready ≡ true
    → Observed c (filter c now true m).0 (now, m)
unfolding filter enqueue
observed c now m r = ground arith

receive-sticky :
    (c : Capture) (ms : List (ℕ × Message))
    → c.ready ≡ true
    → c.overflow ≡ true
    → (receive c ms).overflow ≡ true
unfolding receive
receive-sticky c [] r o = o
receive-sticky c ((now, m) ∷ ms) r o =
    let step = observed c now m r in
    receive-sticky (filter c now true m).0 ms step.ready (step.sticky o)

receive-queue :
    (c : Capture) (ms : List (ℕ × Message))
    → c.ready ≡ true
    → ((receive c ms).overflow ≡ true) ⊎ ((receive c ms).queue ≡ c.queue ++ map entry ms)
unfolding receive
receive-queue c [] r = inr (sym (append-nil c.queue))
receive-queue c ((now, m) ∷ ms) r =
    let step = observed c now m r in
    let d = (filter c now true m).0 in
    elim step.outcome [
      | inl (o, q) ↦ inl (receive-sticky d ms step.ready o)
      | inr (o, q) ↦ elim (receive-queue d ms step.ready) [
        | inl lost ↦ inl lost
        | inr kept ↦ inr (rw (kept, q) (append_assoc c.queue (entry (now, m) ∷ []) (map entry ms)))
      ]
    ]

-- After any burst of messages, a ready capture holds every one of them, whole, with its time and
-- in the order of arrival, behind what it held before; or every later `poll` refuses to go on.
pub receive_lossless :
    (c : Capture) (ms : List (ℕ × Message)) (env : ℕ → Env)
    → c.ready ≡ true
    → ((receive c ms).queue ≡ c.queue ++ map entry ms)
      ⊎ (poll env (receive c ms) ≡ (err capture_overflow, receive c ms))
receive_lossless c ms env r = elim (receive-queue c ms r) [
  | inl lost ↦ inr (unfold poll in rw lost)
  | inr kept ↦ inl kept
]

abbrev pub BodyFits : Option Body → Type 0
BodyFits none = Unit {0}
BodyFits (some b) = b.size ≤ max_body

-- The message is taken in.
record Stored (c d : Capture) (x : ℕ × Message) : Type 0 where
  ready : d.ready ≡ true
  config : d.config ≡ c.config
  overflow : d.overflow ≡ c.overflow
  events : length d.queue ≡ length c.queue + 1
  bytes : d.queued_bytes ≡ c.queued_bytes + message_size x.1

stored :
    (c : Capture) (now : ℕ) (m : Message)
    → c.ready ≡ true
    → BodyFits m.body
    → length c.queue + 1 ≤ c.config.max_pending_events
    → c.queued_bytes + message_size m ≤ c.config.max_pending_bytes
    → Stored c (filter c now true m).0 (now, m)
unfolding filter enqueue
stored c now m r b n s = ground (arith, length-append c.queue (entry (now, m) ∷ []))

-- A burst that fits the configured bounds, with no body over a mebibyte, does not overflow.
pub receive_fits :
    (c : Capture) (ms : List (ℕ × Message))
    → c.ready ≡ true
    → All (λ (x : ℕ × Message). BodyFits x.1.body) ms
    → length c.queue + length ms ≤ c.config.max_pending_events
    → c.queued_bytes + queued_size (map entry ms) ≤ c.config.max_pending_bytes
    → (receive c ms).overflow ≡ c.overflow
unfolding receive
receive_fits c [] r b n s = refl
receive_fits c ((now, m) ∷ ms) r b n s =
    let d = (filter c now true m).0 in
    let step = stored c now m r b.0 (omega arith) (omega arith) in
    receive_fits d ms step.ready b.1 (rw step.config (omega (arith, step.events)))
      (rw step.config (omega (arith, step.bytes)))
    ∙ step.overflow
