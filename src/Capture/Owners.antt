-- ===== src/Capture/Owners.antt =====
-- Ownership of names in src/dbus_event_log/method_capture.py: `_update_owner`, the discovery of
-- `start`, and `_restore_initial_owners`.
use text.Mathlib.Text.{starts_with}
use dbus_event_log.Prelude.{
  ℕ, String, Bool, true, false, not, ◌&&◌, Option, none, some, List, [], ◌∷◌, any, ◌==◌, str_eq,
  if◌then◌else◌, string_eq,
}
use dbus_event_log.Config.{DBusConfig}
use dbus_event_log.Event.{Value, Extra}
use dbus_event_log.Dict
use dbus_event_log.Capture.{
  Capture, Message, Queued, Tracked, Result, ok, err, malformed_arguments, discovery_overflow,
  is_text, bus_name, matches, is_discovery_barrier, body_arguments, or_empty,
}

-- `name, old_owner, new_owner = …`
pub record OwnerChange : Type 0 where
  pub name : String
  pub old_owner : String
  pub new_owner : String

unfoldable pub owner_change : List Value → Option OwnerChange
owner_change (Value.text n ∷ Value.text o ∷ Value.text w ∷ []) =
    some (record { name = n; old_owner = o; new_owner = w })
owner_change _ = none

-- `kwargs["destination"]`
unfoldable pub extra_destination : Extra → Option String
extra_destination (Extra.call i d names expected) = some d
extra_destination (Extra.tracked i d) = some d
extra_destination _ = none

-- The loop of `_update_owner` over the calls that wait for their first owner.
unfoldable pub resolve : String → String → Tracked → Tracked
unfolding extra_destination
resolve name new t =
    if str_eq (or_empty t.event.destination_unique_name) ""
      && is_text (extra_destination t.event.kwargs) name
    then record t { event = record t.event { destination_unique_name = some new } }
    else t

unfoldable pub resolve_calls :
    String → String → List ((String × ℕ) × Tracked) → List ((String × ℕ) × Tracked)
unfolding resolve
resolve_calls name new [] = []
resolve_calls name new ((k, t) ∷ rest) = (k, resolve name new t) ∷ resolve_calls name new rest

unfoldable pub update_owner : Capture → String → String → Capture
unfolding resolve_calls
update_owner c name new =
    if not (matches c.config name)
    then c
    else if str_eq new ""
    then record c { owners = Dict.remove name c.owners }
    else record c { owners = Dict.put name new c.owners; calls = resolve_calls name new c.calls }

-- One name of the loop of `start`: `owner` is the daemon's answer to `GetNameOwner`, `none` its
-- error.
discover_name :
    DBusConfig → String → Option String → List (String × String) → List (String × String)
discover_name config name none owners = owners
discover_name config name (some owner) owners =
    if not (starts_with name ":") && matches config name then Dict.put name owner owners else owners

-- `for name in ListNames`
unfoldable pub discover_owners :
    DBusConfig
    → (String → Option String)
    → List String
    → List (String × String)
    → List (String × String)
unfolding discover_name
discover_owners config owner_of [] owners = owners
discover_owners config owner_of (name ∷ names) owners =
    discover_owners config owner_of names (discover_name config name (owner_of name) owners)

unfoldable pub is_owner_signal : Message → Bool
is_owner_signal m = m.kind == 4 && is_text m.sender bus_name && is_text m.member "NameOwnerChanged"

-- One pass of the loop for an owner change of a name.
unfoldable pub rewind_name :
    DBusConfig
    → OwnerChange
    → List String
    → List (String × String)
    → List String × List (String × String)
rewind_name config change restored owners =
    if matches config change.name && not (any (str_eq change.name) restored)
    then (
      change.name ∷ restored,
      if str_eq change.old_owner ""
          then Dict.remove change.name owners
          else Dict.put change.name change.old_owner owners,
    )
    else (restored, owners)

-- The loop of `_restore_initial_owners`, over the messages of the queue.
unfoldable pub rewind :
    DBusConfig
    → String
    → List Queued
    → List String
    → List (String × String)
    → Result (List (String × String))
rewind config lookup_sender [] restored owners = ok owners
rewind config lookup_sender (q ∷ rest) restored owners =
    elim (is_discovery_barrier lookup_sender q.message) [
      | true ↦ ok owners
      | false ↦ elim (is_owner_signal q.message) [
        | false ↦ rewind config lookup_sender rest restored owners
        | true ↦ elim (owner_change (body_arguments q.message)) [
          | none ↦ err malformed_arguments
          | some change ↦
              let step = rewind_name config change restored owners in
              rewind config lookup_sender rest step.0 step.1
        ]
      ]
    ]

-- `_restore_initial_owners`
unfoldable pub restore_initial_owners : Capture → Result Capture
restore_initial_owners c =
    if c.overflow
    then err discovery_overflow
    else elim (rewind c.config c.lookup_sender c.queue [] c.owners) [
      | ok owners ↦ ok (record c { owners = owners })
      | err e ↦ err e
    ]
