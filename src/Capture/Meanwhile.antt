-- ===== src/Capture/Meanwhile.antt =====
-- What may happen between a call and its reply in src/dbus_event_log/method_capture.py, and that
-- the call is still awaited after it.
use dbus_event_log.Prelude.{
  inl, inr, ℕ, ◌+◌, ◌≤◌, ◌≡◌, ◌≢◌, ap, ◌∙◌, Bool, false, String, some, List, [], ◌∷◌, arith,
  Bool-cases, Option-cases, ltb, str_eq, pair_eq, pair_beq_iff,
}
use mathlib.Core.Option
use dbus_event_log.Event.{DBusEvent, Value}
use dbus_event_log.Dict
use dbus_event_log.Capture.{Capture, Message, Queued, Tracked, or_empty, body_arguments}
use dbus_event_log.Capture.Filter.{filter, enqueue}
use dbus_event_log.Capture.Owners.{update_owner, resolve, resolve_calls, owner_change}
use dbus_event_log.Capture.Decode.{
  Env, decode, method_call, reply, answer, owner_signal, expire, expired, track, reply_lifetime,
  service_of, caller, call_event, tracked_copy,
}
use dbus_event_log.Capture.Poll.{dequeue}

-- A message that neither answers the call of a key nor is a call under the same key.
pub record IsUnrelated (k : String × ℕ) (m : Message) : Type 0 where
  pub no_call : (or_empty m.sender, m.serial) ≢ k
  pub no_answer : (or_empty m.destination, m.reply_serial) ≢ k

-- The filter and the consumer go on: they may see and decode any unrelated messages, also such as
-- raise, no later than the instant.
pub data Meanwhile (k : String × ℕ) (instant : ℕ) (c : Capture) : Capture → Type 0 where
  at_once : Meanwhile k instant c c
  filtered :
      {d : Capture} (now : ℕ) (incoming : Bool) (m : Message)
      → Meanwhile k instant c d
      → Meanwhile k instant c (filter d now incoming m).0
  dequeued :
      {d : Capture} (q : Queued) (rest : List Queued)
      → Meanwhile k instant c d
      → Meanwhile k instant c (dequeue d q rest)
  decoded :
      {d : Capture} (env : Env) (timestamp : ℕ) (m : Message)
      → env.monotonic ≤ instant
      → IsUnrelated k m
      → Meanwhile k instant c d
      → Meanwhile k instant c (decode env timestamp m d).1

-- A call that is not overdue survives the clean-up of its elders.
pub get-expire :
    (now : ℕ) (calls : List ((String × ℕ) × Tracked)) (k : String × ℕ) (t : Tracked)
    → Dict.get k calls ≡ some t
    → now ≤ t.started + reply_lifetime
    → Dict.get k (expire now calls) ≡ some t
unfolding Dict.get expire
get-expire now [] k t g h = g
get-expire now ((j, u) ∷ rest) k t g h = elim (Bool-cases (ltb (u.started + reply_lifetime) now)) [
  | inr kept ↦ rw kept g
  | inl old ↦ rw old (get-expire now rest k t (ground arith) h)
]

-- The connection that a call went to is known.
abbrev pub HasCallee : Tracked → Type 0
HasCallee t = str_eq (or_empty t.event.destination_unique_name) "" ≡ false

resolve-known : (name new : String) (t : Tracked) → HasCallee t → resolve name new t ≡ t
unfolding resolve
resolve-known name new t known = ground (arith, known)

get-resolve_calls :
    (name new : String) (calls : List ((String × ℕ) × Tracked)) (k : String × ℕ) (t : Tracked)
    → HasCallee t
    → Dict.get k calls ≡ some t
    → Dict.get k (resolve_calls name new calls) ≡ some t
unfolding Dict.get resolve_calls
get-resolve_calls name new [] k t known g = g
get-resolve_calls name new ((j, u) ∷ rest) k t known g = elim (Bool-cases (pair_eq.beq j k)) [
  | inl same ↦
      let found : some u ≡ some t = ground (arith, same, g) in
      rw same (ap (Option.map (resolve name new)) found ∙ ap some (resolve-known name new t known))
  | inr other ↦ rw other (get-resolve_calls name new rest k t known (ground (arith, other, g)))
]

update_owner-awaits :
    (c : Capture) (name new : String) (k : String × ℕ) (t : Tracked)
    → HasCallee t
    → Dict.get k c.calls ≡ some t
    → Dict.get k (update_owner c name new).calls ≡ some t
unfolding update_owner
update_owner-awaits c name new k t known g =
    ground (arith, get-resolve_calls name new c.calls k t known g)

owner_signal-awaits :
    (m : Message) (l : List Value) (s : String) (c : Capture) (k : String × ℕ) (t : Tracked)
    → HasCallee t
    → Dict.get k c.calls ≡ some t
    → Dict.get k (owner_signal m l s c).1.calls ≡ some t
unfolding owner_signal
owner_signal-awaits m l s c k t known g = elim (Option-cases (owner_change l)) [
  | inl malformed ↦ ground arith
  | inr (change, found) ↦
      ground (arith, update_owner-awaits c change.name change.new_owner k t known g)
]

get-put_other :
    (j k : String × ℕ) (v : Tracked) (d : List ((String × ℕ) × Tracked))
    → j ≢ k
    → Dict.get k (Dict.put j v d) ≡ Dict.get k d
get-put_other j k v d other = ground (arith, Dict.get-put j v d k, pair_beq_iff j k, other)

get-remove_other :
    (j k : String × ℕ) (d : List ((String × ℕ) × Tracked))
    → j ≢ k
    → Dict.get k (Dict.remove j d) ≡ Dict.get k d
get-remove_other j k d other = ground (arith, Dict.get-remove j d k, pair_beq_iff j k, other)

track-awaits :
    (env : Env) (m : Message) (s : String) (event copy : DBusEvent) (c : Capture) (k : String × ℕ)
    (t : Tracked)
    → (s, m.serial) ≢ k
    → Dict.get k c.calls ≡ some t
    → Dict.get k (track env m s event copy c).1.calls ≡ some t
unfolding track
track-awaits env m s event copy c k t other g = ground (
  arith,
  get-put_other (s, m.serial) k (record { started = env.monotonic; event = copy }) c.calls other,
  g,
)

method_call-awaits :
    (env : Env) (at : ℕ) (m : Message) (l : List Value) (s d : String) (c : Capture)
    (k : String × ℕ) (t : Tracked)
    → (s, m.serial) ≢ k
    → Dict.get k c.calls ≡ some t
    → Dict.get k (method_call env at m l s d c).1.calls ≡ some t
unfolding method_call
method_call-awaits env at m l s d c k t other g = elim (Option-cases (service_of c d)) [
  | inl unselected ↦ ground arith
  | inr (service, found) ↦
      let i = caller env.credentials_of s c.credentials in
      let event = call_event env at m l s d service i.0 c in
      ground (
        arith,
        track-awaits env m s event (tracked_copy event i.0 d) (record c { credentials = i.1 }) k t
            other g,
      )
]

reply-awaits :
    (env : Env) (at : ℕ) (m : Message) (l : List Value) (s d : String) (c : Capture)
    (k : String × ℕ) (t : Tracked)
    → (d, m.reply_serial) ≢ k
    → Dict.get k c.calls ≡ some t
    → Dict.get k (reply env at m l s d c).1.calls ≡ some t
unfolding reply answer
reply-awaits env at m l s d c k t other g =
    ground (arith, get-remove_other (d, m.reply_serial) k c.calls other)

decode-awaits :
    (env : Env) (at : ℕ) (m : Message) (c : Capture) (k : String × ℕ) (t : Tracked)
    → HasCallee t
    → IsUnrelated k m
    → env.monotonic ≤ t.started + reply_lifetime
    → Dict.get k c.calls ≡ some t
    → Dict.get k (decode env at m c).1.calls ≡ some t
unfolding decode
decode-awaits env at m c k t known other soon g =
    let s = or_empty m.sender in
    let d = or_empty m.destination in
    let l = body_arguments m in
    let kept = get-expire env.monotonic c.calls k t g soon in
    ground (
      arith,
      owner_signal-awaits m l s c k t known g,
      method_call-awaits env at m l s d (expired env c) k t other.no_call kept,
      reply-awaits env at m l s d (expired env c) k t other.no_answer kept,
    )

filter-calls :
    (c : Capture) (now : ℕ) (incoming : Bool) (m : Message)
    → (filter c now incoming m).0.calls ≡ c.calls
unfolding filter enqueue
filter-calls c now incoming m = ground arith

-- A call is awaited all the while.
pub Meanwhile-awaits :
    (k : String × ℕ) (instant : ℕ) (c d : Capture) (t : Tracked)
    → HasCallee t
    → instant ≤ t.started + reply_lifetime
    → Meanwhile k instant c d
    → Dict.get k c.calls ≡ some t
    → Dict.get k d.calls ≡ some t
unfolding dequeue
Meanwhile-awaits k instant c d t known soon at_once g = g
Meanwhile-awaits k instant c d t known soon (filtered {d = b} now incoming m past) g =
    ap (Dict.get k) (filter-calls b now incoming m)
    ∙ Meanwhile-awaits k instant c b t known soon past g
Meanwhile-awaits k instant c d t known soon (dequeued {d = b} q rest past) g =
    Meanwhile-awaits k instant c b t known soon past g
Meanwhile-awaits k instant c d t known soon (decoded {d = b} env at m early other past) g =
    decode-awaits env at m b k t known other (omega (arith, early, soon))
      (Meanwhile-awaits k instant c b t known soon past g)
