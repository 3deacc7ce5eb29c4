-- ===== src/Tests/Ownership.antt =====
-- Ownership of names in src/dbus_event_log/method_capture.py, at concrete inputs: while the capture
-- starts, the battery service moves from `:1.9` to `:1.20`.
use dbus_event_log.Prelude.{
  ◌≡◌, refl, true, false, String, none, some, [], ◌∷◌, arith, string_eq, str_eq, if◌then◌else◌,
  Bool-cases, inl, inr,
}
use dbus_event_log.Dict
use dbus_event_log.Event.{Value}
use dbus_event_log.Capture.{Capture, Message, ok, matches, is_discovery_barrier, bus_name}
use dbus_event_log.Capture.Owners.{
  OwnerChange, owner_change, restore_initial_owners, rewind, rewind_name, is_owner_signal,
}
use dbus_event_log.Capture.Rewind.{owner, changes_seen, is_changed, restore-owners}
use dbus_event_log.Capture.Replay.{replay_changes, owners_after, replay-owners}
use dbus_event_log.Tests.Capture.Samples.{ready, call_message}

abbrev battery : String
battery = "com.victronenergy.battery"

abbrev moved : OwnerChange
moved = record { name = battery; old_owner = ":1.9"; new_owner = ":1.20" }

abbrev moved_message : Message
moved_message = record call_message {
  kind = 4;
  sender = some bus_name;
  destination = none;
  member = some "NameOwnerChanged";
  body = some (record {
    size = 40;
    arguments =
        Value.text "com.victronenergy.battery" ∷ Value.text ":1.9" ∷ Value.text ":1.20" ∷ [];
  });
}

-- The snapshot was taken after the move.
abbrev discovered : Capture
discovered = record ready {
  queue = record { timestamp = 1; message = moved_message; size = 100 } ∷ [];
  owners = ("com.victronenergy.battery", ":1.20") ∷ [];
}

abbrev restored : Capture
restored = record discovered { owners = ("com.victronenergy.battery", ":1.9") ∷ [] }

restoring : restore_initial_owners discovered ≡ ok restored
unfolding restore_initial_owners rewind rewind_name is_owner_signal owner_change
    is_discovery_barrier matches Dict.put Dict.remove
restoring = refl

abbrev at_start : String → String
at_start n = if str_eq battery n then ":1.9" else ""

seen : changes_seen ":1.1" discovered.queue ≡ ok (moved ∷ [])
unfolding changes_seen is_owner_signal owner_change is_discovery_barrier
seen = refl

unchanged :
    (n : String)
    → matches discovered.config n ≡ true
    → is_changed n (moved ∷ []) ≡ false
    → Dict.get n discovered.owners ≡ owner (at_start n)
unfolding Dict.get
unchanged n h other = elim (Bool-cases (str_eq battery n)) [
  | inl same ↦ absurd (ground arith)
  | inr differs ↦ rw differs refl
]

restore-owners_example : Dict.get battery restored.owners ≡ owner (at_start battery)
restore-owners_example =
    restore-owners discovered restored at_start (moved ∷ []) restoring seen ((refl, tt)) unchanged
      battery (unfold matches in refl)

at_once :
    (n : String)
    → matches restored.config n ≡ true
    → Dict.get n restored.owners ≡ owner (at_start n)
unfolding Dict.get
at_once n h = elim (Bool-cases (str_eq "com.victronenergy.battery" n)) [
  | inl same ↦ rw same refl
  | inr other ↦ rw other refl
]

replay-owners_example :
    Dict.get battery (replay_changes restored (moved ∷ [])).owners
    ≡ owner (owners_after at_start (moved ∷ []) battery)
replay-owners_example =
    replay-owners restored at_start (moved ∷ []) at_once battery (unfold matches in refl)
