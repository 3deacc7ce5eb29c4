-- ===== src/Capture/Poll.antt =====
-- `poll`, `pending`, `stop_capture` and `close` of src/dbus_event_log/method_capture.py.
use dbus_event_log.Prelude.{
  ℕ, zero, suc, ◌+◌, ◌-◌, Bool, true, false, not, ◌&&◌, Option, none, some, List, [], ◌∷◌, ltb,
  ◌==◌, min, if◌then◌else◌,
}
use dbus_event_log.Event.{DBusEvent}
use dbus_event_log.Capture.{
  Capture, Connection, Queued, Result, ok, err, capture_overflow, connection_closed,
}
use dbus_event_log.Capture.Filter.{max_body}
use dbus_event_log.Capture.Decode.{Env, decode}

abbrev pub batch_limit : Capture → ℕ
batch_limit c = min c.config.max_pending_bytes max_body

abbrev pub add_event : Option DBusEvent → List DBusEvent → List DBusEvent
add_event none events = events
add_event (some e) events = e ∷ events

-- What the rest of the batch returned, behind the event of this message.
abbrev pub prepend :
    Option DBusEvent → Result (List DBusEvent) × Capture → Result (List DBusEvent) × Capture
prepend o (ok events, c) = (ok (add_event o events), c)
prepend o (err e, c) = (err e, c)

-- `popleft`; the caller holds the head.
unfoldable pub dequeue : Capture → Queued → List Queued → Capture
dequeue c q rest = record c { queue = rest; queued_bytes = c.queued_bytes - q.size }

-- `if batch_bytes and batch_bytes + size > batch_limit`
abbrev pub batch_ends : ℕ → ℕ → Queued → Bool
batch_ends limit bytes q = not (bytes == 0) && ltb limit (bytes + q.size)

-- The rest of the loop, after `_decode`; an exception ends it.
unfoldable pub continue :
    Result (Option DBusEvent) × Capture
    → (Capture → Result (List DBusEvent) × Capture)
    → Result (List DBusEvent) × Capture
continue (err e, c) rest = (err e, c)
continue (ok o, c) rest = prepend o (rest c)

-- `for _ in range(64)`, with the rounds left; `limit` is `batch_limit`, `bytes` is `batch_bytes`.
unfoldable pub poll_loop : ℕ → ℕ → (ℕ → Env) → ℕ → Capture → Result (List DBusEvent) × Capture
poll_loop limit zero env bytes c = (ok [], c)
poll_loop limit (suc rounds) env bytes c = elim c.queue [
  | [] ↦ (ok [], c)
  | q ∷ rest ↦ elim (batch_ends limit bytes q) [
    | true ↦ (ok [], c)
    | false ↦
        continue (decode (env rounds) q.timestamp q.message (dequeue c q rest))
          (poll_loop limit rounds env (bytes + q.size))
  ]
]

abbrev pub is_gone : Option Connection → Bool
is_gone none = false
is_gone (some k) = k.is_closed

abbrev pub poll_rounds : ℕ
poll_rounds = 64

-- `poll`: `env` answers for the round with that many rounds left behind it.
unfoldable pub poll : (ℕ → Env) → Capture → Result (List DBusEvent) × Capture
poll env c =
    if c.overflow
    then (err capture_overflow, c)
    else if c.ready && is_gone c.connection
    then (err connection_closed, c)
    else poll_loop (batch_limit c) poll_rounds env 0 c

-- `pending`
unfoldable pub pending : Capture → Bool
pending c = elim c.queue [ [] ↦ false | _ ↦ true ]

-- A `close_sync` that is called raises unless it works.
abbrev pub close_raises : Bool → Connection → Bool
close_raises works k = not k.is_closed && not works

-- `stop_capture`: whether it returns, and the state. The connection is closed, then the filter
-- removed; what is queued stays. Where `close_sync` raises, the connection and the filter stay.
unfoldable pub stop_capture : Bool → Capture → Bool × Capture
stop_capture works c = elim c.connection [
  | none ↦ (true, record c { ready = false })
  | some k ↦
      if close_raises works k
      then (false, record c { ready = false })
      else (true, record c { ready = false; filter_id = none; connection = none })
]

-- The `finally` of `close`, also after a `stop_capture` that raised.
abbrev pub close_lookup : Bool → Option Connection → Bool × Capture → Bool × Capture
close_lookup works none r = r
close_lookup works (some k) r =
    if close_raises works k then (false, r.1) else (r.0, record r.1 { lookup = none })

-- `close`: whether closing the monitor's connection and the lookup's works.
unfoldable pub close : Bool → Bool → Capture → Bool × Capture
unfolding stop_capture
close works lookup_works c = close_lookup lookup_works c.lookup (stop_capture works c)
