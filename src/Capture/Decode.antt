-- ===== src/Capture/Decode.antt =====
-- `_decode`, `_method_call` and `_caller` of src/dbus_event_log/method_capture.py. A method that
-- mutates the object and may raise returns its result and the state that it leaves.
use Prim.Native.Nat.{Ordering}
use Prim.Native.String
use text.Mathlib.Text.{starts_with}
use dbus_event_log.Prelude.{
  ℕ, ◌+◌, ◌%◌, String, Bool, true, false, not, ◌&&◌, ◌||◌, Option, none, some, List, [], ◌∷◌, any,
  ltb, leb, ◌==◌, str_eq, length, drop, if◌then◌else◌, string_eq, pair_eq,
}
use dbus_event_log.Event.{DBusEvent, Value, Extra, Identity}
use dbus_event_log.Event.Kinds.{EventType}
use dbus_event_log.Dict
use dbus_event_log.Capture.{
  Capture, Message, Tracked, Result, ok, err, malformed_arguments, missing_key,
  too_many_pending_replies, is_text, bus_name, matches, body_arguments, or_empty,
}
use dbus_event_log.Capture.Owners.{owner_change, update_owner}

-- The daemon's answer to `GetConnectionCredentials`; an absent key is `none`.
pub record Credentials : Type 0 where
  pub unix_user_id : Option ℕ
  pub process_id : Option ℕ

-- What one call of `_decode` takes from outside: `time.monotonic`, `uuid4`, the daemon's answers
-- (`none` for an exception), and Python's `str`.
pub record Env : Type 0 where
  pub monotonic : ℕ
  pub new_id : ℕ
  pub credentials_of : String → Option Credentials
  pub show : Value → String

abbrev pub reply_lifetime : ℕ
reply_lifetime = 60_000_000

abbrev pub max_credentials : ℕ
max_credentials = 256

-- The loop that drops calls without a reply, oldest first.
unfoldable pub expire : ℕ → List ((String × ℕ) × Tracked) → List ((String × ℕ) × Tracked)
expire now [] = []
expire now ((k, t) ∷ rest) =
    if ltb (t.started + reply_lifetime) now then expire now rest else (k, t) ∷ rest

unfoldable pub identity_of : String → Option Credentials → Identity
identity_of sender none = record {
  unique_name = sender;
  credentials_available = false;
  unix_user_id = none;
  process_id = none;
}
identity_of sender (some c) = record {
  unique_name = sender;
  credentials_available = true;
  unix_user_id = c.unix_user_id;
  process_id = c.process_id;
}

-- `popitem(last=False)` above the limit
trim_credentials : List (String × Identity) → List (String × Identity)
trim_credentials d = if ltb max_credentials (length d) then drop 1 d else d

-- `_caller`: the identity, and the cache that it leaves.
unfoldable pub caller :
    (String → Option Credentials)
    → String
    → List (String × Identity)
    → Identity × List (String × Identity)
unfolding identity_of trim_credentials
caller credentials_of sender cache = elim (Dict.get sender cache) [
  | some identity ↦ (identity, Dict.move_to_end sender cache)
  | none ↦
      let identity = identity_of sender (credentials_of sender) in
      (identity, trim_credentials (Dict.put sender identity cache))
]

-- `sorted(names)`, by code points
abbrev name_le : String → String → Bool
name_le a b = elim (String.compare a b) [ Ordering.gt ↦ false | _ ↦ true ]

insert_name : String → List String → List String
insert_name n [] = n ∷ []
insert_name n (m ∷ rest) =
    let after = insert_name n rest in if name_le n m then n ∷ m ∷ rest else m ∷ after

unfoldable pub sort_names : List String → List String
unfolding insert_name
sort_names [] = []
sort_names (n ∷ rest) = insert_name n (sort_names rest)

-- `name for name, owner in owners.items() if owner == destination`
unfoldable pub owned_names : String → List (String × String) → List String
owned_names destination [] = []
owned_names destination ((name, owner) ∷ rest) =
    let others = owned_names destination rest in
    if str_eq owner destination then name ∷ others else others

unfoldable pub destination_names : Capture → String → List String
unfolding sort_names owned_names
destination_names c destination = sort_names (owned_names destination c.owners)

abbrev first_name : List String → Option String
first_name [] = none
first_name (n ∷ rest) = some n

-- The service that a call is recorded under; `none` is no selected service.
unfoldable pub service_of : Capture → String → Option String
unfolding matches destination_names
service_of c destination =
    if matches c.config destination
    then some destination
    else first_name (destination_names c destination)

abbrev is_member : Option String → List String → Bool
is_member none l = false
is_member (some m) l = any (str_eq m) l

abbrev is_empty {ℓ} : {A : Type ℓ} → List A → Bool
is_empty [] = true
is_empty (x ∷ xs) = false

-- The tests of `_method_call` before an event is made.
unfoldable pub is_wanted : Capture → Message → String → Bool
is_wanted c m sender =
    not (any (str_eq sender) c.ignored_senders)
    && (is_empty c.config.method_members || is_member m.member c.config.method_members)

-- `not int(message.get_flags()) & 1`
abbrev pub reply_expected : Message → Bool
reply_expected m = m.flags % 2 == 0

unfoldable pub call_event :
    Env → ℕ → Message → List Value → String → String → String → Identity → Capture → DBusEvent
unfolding destination_names
call_event env timestamp m arguments sender destination service identity c = record {
  id = env.new_id;
  timestamp = timestamp;
  event_type = EventType.method_call;
  service_name = service;
  object_path = elim m.path [ none ↦ "/" | some p ↦ if str_eq p "" then "/" else p ];
  interface = m.interface;
  member = m.member;
  signal_type = none;
  arguments = arguments;
  kwargs = Extra.call identity destination (destination_names c destination) (reply_expected m);
  source_unique_name = some sender;
  destination_unique_name =
      if starts_with destination ":" then some destination else Dict.get destination c.owners;
  message_serial = some m.serial;
  error_name = none;
  error_message = none;
  state_from = none;
  state_to = none;
}

-- `event.model_copy(update=…)`
unfoldable pub tracked_copy : DBusEvent → Identity → String → DBusEvent
tracked_copy e identity destination = record e {
  arguments = [];
  kwargs = Extra.tracked identity destination;
}

-- `if reply_expected: …`
unfoldable pub track :
    Env → Message → String → DBusEvent → DBusEvent → Capture → Result (Option DBusEvent) × Capture
track env m sender event copy c =
    if not (reply_expected m)
    then (ok (some event), c)
    else if leb c.config.max_pending_events (length c.calls)
    then (err too_many_pending_replies, c)
    else (
      ok (some event),
      record c {
        calls =
            Dict.put (sender, m.serial) (record { started = env.monotonic; event = copy }) c.calls;
      },
    )

-- `_method_call`
unfoldable pub method_call :
    Env → ℕ → Message → List Value → String → String → Capture → Result (Option DBusEvent) × Capture
method_call env timestamp m arguments sender destination c =
    if not (is_wanted c m sender) then (ok none, c) else elim (service_of c destination) [
      | none ↦ (ok none, c)
      | some service ↦
          let (identity, cache) = caller env.credentials_of sender c.credentials in
          let event = call_event env timestamp m arguments sender destination service identity c in
          track env m sender event (tracked_copy event identity destination)
            (record c { credentials = cache })
    ]

-- An unrelated connection must not be able to forge a result.
unfoldable pub is_genuine : Message → String → DBusEvent → Bool
is_genuine m sender call =
    (not (str_eq (or_empty call.destination_unique_name) "")
      && is_text call.destination_unique_name sender)
    || (str_eq sender bus_name && m.kind == 3)

unfoldable pub extra_caller : Extra → Option Identity
extra_caller (Extra.call i d names expected) = some i
extra_caller (Extra.tracked i d) = some i
extra_caller (Extra.reply e s i) = some i
extra_caller _ = none

first_text : (Value → String) → List Value → Option String
first_text show [] = none
first_text show (v ∷ rest) = some (show v)

unfoldable pub reply_event :
    Env → ℕ → Message → List Value → String → String → DBusEvent → Identity → DBusEvent
unfolding first_text
reply_event env timestamp m arguments sender destination call identity = record {
  id = env.new_id;
  timestamp = timestamp;
  event_type = if m.kind == 3 then EventType.error else EventType.method_return;
  service_name = call.service_name;
  object_path = call.object_path;
  interface = call.interface;
  member = call.member;
  signal_type = none;
  arguments = arguments;
  kwargs = Extra.reply call.id call.message_serial identity;
  source_unique_name = some sender;
  destination_unique_name = some destination;
  message_serial = some m.serial;
  error_name = m.error_name;
  error_message = if m.kind == 3 then first_text env.show arguments else none;
  state_from = none;
  state_to = none;
}

-- The end of `_decode`: a reply to a call that is awaited.
unfoldable pub answer :
    Env
    → ℕ
    → Message
    → List Value
    → String
    → String
    → DBusEvent
    → Capture
    → Result (Option DBusEvent) × Capture
unfolding is_genuine extra_caller reply_event
answer env timestamp m arguments sender destination call c =
    if not (is_genuine m sender call)
    then (ok none, c)
    else let c' = record c { calls = Dict.remove (destination, m.reply_serial) c.calls } in
      elim (extra_caller call.kwargs) [
        | none ↦ (err missing_key, c')
        | some identity ↦
            (ok (some (reply_event env timestamp m arguments sender destination call identity)), c')
      ]

abbrev is_reply : Message → Bool
is_reply m = m.kind == 2 || m.kind == 3

unfoldable pub reply :
    Env → ℕ → Message → List Value → String → String → Capture → Result (Option DBusEvent) × Capture
reply env timestamp m arguments sender destination c =
    if not (is_reply m)
    then (ok none, c)
    else elim (Dict.get (destination, m.reply_serial) c.calls) [
      | none ↦ (ok none, c)
      | some t ↦ answer env timestamp m arguments sender destination t.event c
    ]

-- The first branch of `_decode`: a signal only moves ownership.
unfoldable pub owner_signal :
    Message → List Value → String → Capture → Result (Option DBusEvent) × Capture
unfolding owner_change update_owner
owner_signal m arguments sender c =
    if not (str_eq sender bus_name && is_text m.member "NameOwnerChanged")
    then (ok none, c)
    else elim (owner_change arguments) [
      | none ↦ (err malformed_arguments, c)
      | some change ↦ (ok none, update_owner c change.name change.new_owner)
    ]

abbrev pub expired : Env → Capture → Capture
expired env c = record c { calls = expire env.monotonic c.calls }

-- `_decode`
unfoldable pub decode : Env → ℕ → Message → Capture → Result (Option DBusEvent) × Capture
decode env timestamp m c =
    let sender = or_empty m.sender in
    let destination = or_empty m.destination in
    let arguments = body_arguments m in
    if m.kind == 4
    then owner_signal m arguments sender c
    else if m.kind == 1
    then method_call env timestamp m arguments sender destination (expired env c)
    else reply env timestamp m arguments sender destination (expired env c)
