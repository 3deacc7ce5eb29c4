-- ===== src/Capture/Replies.antt =====
-- Replies in src/dbus_event_log/method_capture.py: which are recorded, and for which call.
use dbus_event_log.Prelude.{
  ap, ◌∙◌, str_eq, ℕ, ◌+◌, ◌≤◌, ◌≡◌, ◌≢◌, refl, ◌⊎◌, inl, inr, true, String, Option, none, some,
  List, arith, Bool-cases, Option-cases, eq_iff, pair_eq, if◌then◌else◌, ◌==◌, pair_beq_iff,
}
use dbus_event_log.Event.{DBusEvent, Value, Extra, Identity}
use dbus_event_log.Event.Kinds.{EventType}
use dbus_event_log.Dict
use dbus_event_log.Capture.{Capture, Message, Tracked, ok, bus_name, or_empty, body_arguments}
use dbus_event_log.Capture.Meanwhile.{Meanwhile, HasCallee, Meanwhile-awaits, get-expire}
use dbus_event_log.Capture.Decode.{
  Env, decode, method_call, reply, answer, owner_signal, expired, track, is_genuine, extra_caller,
  reply_event, reply_lifetime, is_wanted, service_of, caller, call_event, tracked_copy,
  reply_expected,
}

-- Where a reply comes from.
abbrev pub FromCallee : Message → DBusEvent → Type 0
FromCallee m call =
    (call.destination_unique_name ≡ some (or_empty m.sender))
    ⊎ ((or_empty m.sender ≡ bus_name) × (m.kind ≡ 3))

is_genuine-FromCallee :
    (m : Message) (call : DBusEvent)
    → is_genuine m (or_empty m.sender) call ≡ true
    → FromCallee m call
unfolding is_genuine
is_genuine-FromCallee m call h = by_owner call.destination_unique_name h
  where
    by_owner :
        (o : Option String)
        → is_genuine m (or_empty m.sender) (record call { destination_unique_name = o }) ≡ true
        → (o ≡ some (or_empty m.sender)) ⊎ ((or_empty m.sender ≡ bus_name) × (m.kind ≡ 3))
    by_owner none h = ground (arith, eq_iff (or_empty m.sender) bus_name)
    by_owner (some o) h =
        ground (arith, eq_iff (or_empty m.sender) bus_name, eq_iff o (or_empty m.sender))

answer_recorded :
    (env : Env) (t : ℕ) (m : Message) (l : List Value) (s d : String) (call : DBusEvent)
    (c c' : Capture) (e : DBusEvent)
    → answer env t m l s d call c ≡ (ok (some e), c')
    → (identity : Identity) × (is_genuine m s call ≡ true)
      × (extra_caller call.kwargs ≡ some identity)
      × (e ≡ reply_event env t m l s d call identity)
      × (c' ≡ record c { calls = Dict.remove (d, m.reply_serial) c.calls })
unfolding answer
answer_recorded env t m l s d call c c' e h = elim (Bool-cases (is_genuine m s call)) [
  | inr forged ↦ ground arith
  | inl genuine ↦ elim (Option-cases (extra_caller call.kwargs)) [
    | inl missing ↦ ground arith
    | inr (identity, found) ↦ (identity, genuine, found, ground arith, ground arith)
  ]
]

reply_tracked :
    (env : Env) (t : ℕ) (m : Message) (l : List Value) (s d : String) (c c' : Capture)
    (e : DBusEvent)
    → reply env t m l s d c ≡ (ok (some e), c')
    → (awaited : Tracked) × (Dict.get (d, m.reply_serial) c.calls ≡ some awaited)
      × (answer env t m l s d awaited.event c ≡ (ok (some e), c'))
unfolding reply
reply_tracked env t m l s d c c' e h = elim (Option-cases (Dict.get (d, m.reply_serial) c.calls)) [
  | inl unknown ↦ ground arith
  | inr (awaited, found) ↦ (awaited, found, ground arith)
]

owner_signal_silent :
    (m : Message) (l : List Value) (s : String) (c c' : Capture) (e : DBusEvent)
    → owner_signal m l s c ≢ (ok (some e), c')
unfolding owner_signal
owner_signal_silent m l s c c' e h = ground arith

-- What the recorded result of a tracked call is.
pub record IsResult (awaited : Tracked) (m : Message) (e : DBusEvent) (after : Capture)
    : Type 0 where
  pub callee : FromCallee m awaited.event
  pub service : e.service_name ≡ awaited.event.service_name
  pub path : e.object_path ≡ awaited.event.object_path
  pub member : e.member ≡ awaited.event.member
  pub identity : Identity
  pub kwargs : e.kwargs ≡ Extra.reply awaited.event.id awaited.event.message_serial identity
  pub answered : Dict.get (or_empty m.destination, m.reply_serial) after.calls ≡ none

answer-IsResult :
    (env : Env) (t : ℕ) (m : Message) (l : List Value) (awaited : Tracked) (c c' : Capture)
    (e : DBusEvent)
    → answer env t m l (or_empty m.sender) (or_empty m.destination) awaited.event c
      ≡ (ok (some e), c')
    → IsResult awaited m e c'
unfolding reply_event
answer-IsResult env t m l awaited c c' e h =
    let k : String × ℕ = (or_empty m.destination, m.reply_serial) in
    let (identity, genuine, _, event, after) =
      answer_recorded env t m l (or_empty m.sender) (or_empty m.destination) awaited.event c c' e
        h in
    record {
      callee = is_genuine-FromCallee m awaited.event genuine;
      service = rw event refl;
      path = rw event refl;
      member = rw event refl;
      identity = identity;
      kwargs = rw event refl;
      answered = rw (after, Dict.get-remove k c.calls k, (pair_beq_iff k k).1 refl) refl;
    }

decode_replied :
    (env : Env) (t : ℕ) (m : Message) (c c' : Capture) (e : DBusEvent)
    → m.kind ≢ 1
    → decode env t m c ≡ (ok (some e), c')
    → reply env t m (body_arguments m) (or_empty m.sender) (or_empty m.destination) (expired env c)
      ≡ (ok (some e), c')
unfolding decode
decode_replied env t m c c' e k h =
    ground (arith, owner_signal_silent m (body_arguments m) (or_empty m.sender) c c' e)

-- An event that a message other than a call leads to is the result of a tracked call that has
-- not expired: it carries that call's service, path, member, id and serial, the message came from
-- the connection that was called or is an error of the bus itself, and the call is then no longer
-- awaited.
pub reply_recorded :
    (env : Env) (t : ℕ) (m : Message) (c c' : Capture) (e : DBusEvent)
    → m.kind ≢ 1
    → decode env t m c ≡ (ok (some e), c')
    → (awaited : Tracked) × (Dict.get (or_empty m.destination, m.reply_serial) (expired env c).calls
        ≡ some awaited)
      × IsResult awaited m e c'
reply_recorded env t m c c' e k h =
    let (awaited, found, answered) =
      reply_tracked env t m (body_arguments m) (or_empty m.sender) (or_empty m.destination)
        (expired env c) c' e (decode_replied env t m c c' e k h) in
    (
      awaited,
      found,
      answer-IsResult env t m (body_arguments m) awaited (expired env c) c' e answered,
    )

track_recorded :
    (env : Env) (m : Message) (s : String) (event copy e : DBusEvent) (c c' : Capture)
    → track env m s event copy c ≡ (ok (some e), c')
    → reply_expected m ≡ true
    → (e ≡ event)
      × (Dict.get (s, m.serial) c'.calls ≡ some (record { started = env.monotonic; event = copy }))
unfolding track
track_recorded env m s event copy e c c' h r = ground (
  arith,
  Dict.get-put (s, m.serial) (record { started = env.monotonic; event = copy }) c.calls
      (s, m.serial),
  pair_beq_iff (s, m.serial) (s, m.serial),
)

method_call_recorded :
    (env : Env) (t : ℕ) (m : Message) (l : List Value) (s d : String) (c c' : Capture)
    (e : DBusEvent)
    → method_call env t m l s d c ≡ (ok (some e), c')
    → (service : String) × (is_wanted c m s ≡ true)
      × (service_of c d ≡ some service)
      × (let i = caller env.credentials_of s c.credentials in
          let event = call_event env t m l s d service i.0 c in
          track env m s event (tracked_copy event i.0 d) (record c { credentials = i.1 })
          ≡ (ok (some e), c'))
unfolding method_call
method_call_recorded env t m l s d c c' e h = elim (Bool-cases (is_wanted c m s)) [
  | inr unwanted ↦ ground arith
  | inl wanted ↦ elim (Option-cases (service_of c d)) [
    | inl unselected ↦ ground arith
    | inr (service, found) ↦ (service, wanted, found, ground arith)
  ]
]

-- The matching entry, after a call whose reply is expected.
call_tracked :
    (env : Env) (t : ℕ) (m : Message) (c c' : Capture) (e : DBusEvent)
    → m.kind ≡ 1
    → reply_expected m ≡ true
    → decode env t m c ≡ (ok (some e), c')
    → (identity : Identity) × (Dict.get (or_empty m.sender, m.serial) c'.calls
        ≡ some (record {
          started = env.monotonic;
          event = tracked_copy e identity (or_empty m.destination);
        }))
unfolding decode
call_tracked env t m c c' e k r h =
    let s = or_empty m.sender in
    let d = or_empty m.destination in
    let l = body_arguments m in
    let (service, _, _, tracked) =
      method_call_recorded env t m l s d (expired env c) c' e (ground arith) in
    let i = caller env.credentials_of s (expired env c).credentials in
    let event = call_event env t m l s d service i.0 (expired env c) in
    let (same, found) =
      track_recorded env m s event (tracked_copy event i.0 d) e
        (record (expired env c) { credentials = i.1 }) c' tracked r in
    (i.0, rw same found)

-- A genuine reply to an awaited call is recorded.
reply_answers :
    (env : Env) (t : ℕ) (r : Message) (c : Capture) (awaited : Tracked) (identity : Identity)
    → (r.kind ≡ 2) ⊎ (r.kind ≡ 3)
    → Dict.get (or_empty r.destination, r.reply_serial) (expired env c).calls ≡ some awaited
    → extra_caller awaited.event.kwargs ≡ some identity
    → awaited.event.destination_unique_name ≡ some (or_empty r.sender)
    → or_empty r.sender ≢ ""
    → (decode env t r c).0
      ≡ ok (
          some (
            reply_event env t r
              (body_arguments r)
              (or_empty r.sender)
              (or_empty r.destination)
              awaited.event
              identity))
unfolding decode reply answer is_genuine
reply_answers env t r c awaited identity k found who owner named =
    ground (arith, eq_iff (or_empty r.sender) "", eq_iff (or_empty r.sender) (or_empty r.sender))

-- A call whose reply is expected and whose callee is known, then whatever unrelated messages are
-- seen and decoded, also such as raise, and then, all within a minute of the call, a reply or an
-- error of the called connection: this is recorded as the result of the call, under its service and
-- with its id and serial in `kwargs`.
pub call_then_reply :
    (env later : Env) (t t' instant : ℕ) (m r : Message) (c c' d : Capture) (e : DBusEvent)
    → m.kind ≡ 1
    → reply_expected m ≡ true
    → decode env t m c ≡ (ok (some e), c')
    → Meanwhile (or_empty m.sender, m.serial) instant c' d
    → instant ≤ env.monotonic + reply_lifetime
    → (r.kind ≡ 2) ⊎ (r.kind ≡ 3)
    → or_empty r.destination ≡ or_empty m.sender
    → r.reply_serial ≡ m.serial
    → e.destination_unique_name ≡ some (or_empty r.sender)
    → or_empty r.sender ≢ ""
    → later.monotonic ≤ env.monotonic + reply_lifetime
    → (result : DBusEvent) × (identity : Identity) × ((decode later t' r d).0 ≡ ok (some result))
      × (result.service_name ≡ e.service_name)
      × (result.kwargs ≡ Extra.reply e.id e.message_serial identity)
      × (result.event_type ≡ (if r.kind == 3 then EventType.error else EventType.method_return))
unfolding reply_event extra_caller tracked_copy
call_then_reply env later t t' instant m r c c' d e k x h meanwhile early kind to serial owner named
      soon =
    let (identity, found) = call_tracked env t m c c' e k x h in
    let awaited : Tracked = record {
      started = env.monotonic;
      event = tracked_copy e identity (or_empty m.destination);
    } in
    let key : String × ℕ = (or_empty m.sender, m.serial) in
    let known : HasCallee awaited =
      ap (λ (o : Option String). str_eq (or_empty o) "") owner
      ∙ ground (arith, eq_iff (or_empty r.sender) "", named) in
    let still = Meanwhile-awaits key instant c' d awaited known early meanwhile found in
    let kept : Dict.get (or_empty r.destination, r.reply_serial) (expired later d).calls
        ≡ some awaited =
      rw (to, serial) (get-expire later.monotonic d.calls key awaited still soon) in
    (
      reply_event later t' r (body_arguments r) (or_empty r.sender) (or_empty r.destination)
          awaited.event identity,
      identity,
      reply_answers later t' r d awaited identity kind kept refl owner named,
      refl,
      refl,
      refl,
    )
