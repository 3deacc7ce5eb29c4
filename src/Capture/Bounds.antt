-- ===== src/Capture/Bounds.antt =====
-- The bounds of src/dbus_event_log/method_capture.py: its queue, its byte count, the pending calls
-- and the cache of credentials.
use dbus_event_log.Prelude.{
  none, some, if_elim, ℕ, suc, ◌+◌, ◌≤◌, ◌≡◌, refl, Bool, String, Option, List, [], ◌∷◌, ◌++◌,
  arith, length, length-append, length-drop, string_eq, pair_eq, ap, Option-cases, inl, inr,
  Bool-cases,
}
use dbus_event_log.Config.{DBusConfig}
use dbus_event_log.Event.{Value, Identity, DBusEvent}
use dbus_event_log.Dict
use dbus_event_log.Capture.{
  Connection, Capture, Message, Queued, Tracked, init, or_empty, body_arguments, message_size,
}
use dbus_event_log.Capture.Owners.{update_owner, resolve_calls, owner_change}
use dbus_event_log.Capture.Filter.{filter, enqueue}
use dbus_event_log.Capture.Decode.{
  Env, Credentials, caller, expire, decode, owner_signal, method_call, reply, expired,
  max_credentials, identity_of, track, is_wanted, service_of, call_event, tracked_copy, answer,
}
use dbus_event_log.Capture.Poll.{poll, dequeue, stop_capture, close, close_lookup, close_raises}
use dbus_event_log.Capture.Batches.{poll_inv}
use dbus_event_log.Capture.Frames.{decode-SameQueue}

-- What `_queued_bytes` counts.
abbrev pub queued_size : List Queued → ℕ
queued_size [] = 0
queued_size (q ∷ rest) = q.size + queued_size rest

pub queued_size-append :
    (xs ys : List Queued) → queued_size (xs ++ ys) ≡ queued_size xs + queued_size ys
queued_size-append [] ys = omega arith
queued_size-append (x ∷ xs) ys = omega (arith, queued_size-append xs ys)

pub record IsBounded (c : Capture) : Type 0 where
  pub events : length c.queue ≤ c.config.max_pending_events
  pub counted : c.queued_bytes ≡ queued_size c.queue
  pub bytes : c.queued_bytes ≤ c.config.max_pending_bytes
  pub pending_calls : length c.calls ≤ c.config.max_pending_events
  pub cached : length c.credentials ≤ max_credentials

pub init-IsBounded : (config : DBusConfig) (sender : String) → IsBounded (init config sender)
unfolding init
init-IsBounded config sender = omega arith

enqueue-IsBounded :
    (c : Capture) (now : ℕ) (m : Message) → IsBounded c → IsBounded (enqueue c now m)
unfolding enqueue
enqueue-IsBounded c now m v =
    let q : Queued = record { timestamp = now; message = m; size = message_size m } in
    ground (arith, length-append c.queue (q ∷ []), queued_size-append c.queue (q ∷ []))

pub filter-IsBounded :
    (c : Capture) (now : ℕ) (incoming : Bool) (m : Message)
    → IsBounded c
    → IsBounded (filter c now incoming m).0
unfolding filter
filter-IsBounded c now incoming m v = ground (arith, enqueue-IsBounded c now m v)

length-resolve_calls :
    (name new : String) (calls : List ((String × ℕ) × Tracked))
    → length (resolve_calls name new calls) ≡ length calls
unfolding resolve_calls
length-resolve_calls name new [] = refl
length-resolve_calls name new (x ∷ rest) = ap suc (length-resolve_calls name new rest)

length-expire_le :
    (now : ℕ) (calls : List ((String × ℕ) × Tracked)) → length (expire now calls) ≤ length calls
unfolding expire
length-expire_le now [] = omega arith
length-expire_le now (x ∷ rest) = ground (arith, length-expire_le now rest)

length-caller_le :
    (answer : String → Option Credentials) (sender : String) (cache : List (String × Identity))
    → length cache ≤ max_credentials
    → length (caller answer sender cache).1 ≤ max_credentials
unfolding caller
length-caller_le answer sender cache h = ground (
  arith,
  Dict.length-move_to_end_le sender cache,
  length-drop 1 (Dict.put sender (identity_of sender (answer sender)) cache),
  Dict.length-put_le sender (identity_of sender (answer sender)) cache,
)

-- The consumer's own bounds, for the steps that leave the queue alone.
pub record IsTracking (c : Capture) : Type 0 where
  pub pending_calls : length c.calls ≤ c.config.max_pending_events
  pub cached : length c.credentials ≤ max_credentials

owner_signal-IsTracking :
    (m : Message) (arguments : List Value) (s : String) (c : Capture)
    → IsTracking c
    → IsTracking (owner_signal m arguments s c).1
unfolding owner_signal update_owner
owner_signal-IsTracking m arguments s c v = elim (Option-cases (owner_change arguments)) [
  | inl e ↦ ground arith
  | inr (change, e) ↦
      rw (e, owner_signal)
        (ground (arith, length-resolve_calls change.name change.new_owner c.calls))
]

expired-IsTracking : (env : Env) (c : Capture) → IsTracking c → IsTracking (expired env c)
expired-IsTracking env c v = omega (arith, length-expire_le env.monotonic c.calls)

track-IsTracking :
    (env : Env) (m : Message) (s : String) (event copy : DBusEvent) (c : Capture)
    → IsTracking c
    → IsTracking (track env m s event copy c).1
unfolding track
track-IsTracking env m s event copy c v =
    let t : Tracked = record { started = env.monotonic; event = copy } in
    ground (arith, Dict.length-put_le (s, m.serial) t c.calls)

method_call-IsTracking :
    (env : Env) (t : ℕ) (m : Message) (arguments : List Value) (s d : String) (c : Capture)
    → IsTracking c
    → IsTracking (method_call env t m arguments s d c).1
unfolding method_call
method_call-IsTracking env t m arguments s d c v = elim (Bool-cases (is_wanted c m s)) [
  | inr e ↦ rw (e, method_call) v
  | inl e ↦ elim (Option-cases (service_of c d)) [
    | inl none_found ↦ rw (e, method_call, none_found) v
    | inr (service, found) ↦
        let identity = caller env.credentials_of s c.credentials in
        let event = call_event env t m arguments s d service identity.0 c in
        rw (e, method_call, found)
          (track-IsTracking env m s event (tracked_copy event identity.0 d)
            (record c { credentials = identity.1 })
            (record {
              pending_calls = v.pending_calls;
              cached = length-caller_le env.credentials_of s c.credentials v.cached;
            }))
  ]
]

reply-IsTracking :
    (env : Env) (t : ℕ) (m : Message) (arguments : List Value) (s d : String) (c : Capture)
    → IsTracking c
    → IsTracking (reply env t m arguments s d c).1
unfolding reply answer
reply-IsTracking env t m arguments s d c v =
    ground (arith, Dict.length-remove_le (d, m.reply_serial) c.calls)

decode-IsTracking :
    (env : Env) (t : ℕ) (m : Message) (c : Capture) → IsTracking c → IsTracking (decode env t m c).1
unfolding decode
decode-IsTracking env t m c v =
    let s = or_empty m.sender in
    let d = or_empty m.destination in
    let l = body_arguments m in
    ground (
      arith,
      owner_signal-IsTracking m l s c v,
      method_call-IsTracking env t m l s d (expired env c) (expired-IsTracking env c v),
      reply-IsTracking env t m l s d (expired env c) (expired-IsTracking env c v),
    )

-- Whatever a message holds, decoding it keeps every bound.
pub decode-IsBounded :
    (env : Env) (t : ℕ) (m : Message) (c : Capture) → IsBounded c → IsBounded (decode env t m c).1
decode-IsBounded env t m c v =
    let tracking =
      decode-IsTracking env t m c (record { pending_calls = v.pending_calls; cached = v.cached }) in
    ground (arith, decode-SameQueue env t m c, tracking)

pub dequeue-IsBounded :
    (c : Capture) (q : Queued) (rest : List Queued)
    → c.queue ≡ q ∷ rest
    → IsBounded c
    → IsBounded (dequeue c q rest)
unfolding dequeue
dequeue-IsBounded c q rest e v = ground arith

pub poll-IsBounded : (env : ℕ → Env) (c : Capture) → IsBounded c → IsBounded (poll env c).1
poll-IsBounded = poll_inv IsBounded λ env c q rest e v.
    decode-IsBounded env q.timestamp q.message _ (dequeue-IsBounded c q rest e v)

pub stop_capture-IsBounded :
    (works : Bool) (c : Capture) → IsBounded c → IsBounded (stop_capture works c).1
unfolding stop_capture
stop_capture-IsBounded works c v = ground arith

close_lookup-IsBounded :
    (works : Bool) (o : Option Connection) (r : Bool × Capture)
    → IsBounded r.1
    → IsBounded (close_lookup works o r).1
close_lookup-IsBounded works none r v = v
close_lookup-IsBounded works (some k) r v =
    if_elim (λ (x : Bool × Capture). IsBounded x.1) (close_raises works k) (λ _. v)
      (λ _. ground (arith, v))

pub close-IsBounded :
    (works lookup_works : Bool) (c : Capture)
    → IsBounded c
    → IsBounded (close works lookup_works c).1
unfolding close
close-IsBounded works lookup_works c v =
    close_lookup-IsBounded lookup_works c.lookup (stop_capture works c)
      (stop_capture-IsBounded works c v)
