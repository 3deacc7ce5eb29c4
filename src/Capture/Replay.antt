-- ===== src/Capture/Replay.antt =====
-- `_update_owner` of src/dbus_event_log/method_capture.py, applied to the queued owner changes in
-- order, against the history on the bus.
use dbus_event_log.Prelude.{
  ◌≡◌, String, true, List, [], ◌∷◌, arith, str_eq, eq_iff, if◌then◌else◌, string_eq, sym, ap, ◌∙◌,
}
use dbus_event_log.Config.{DBusConfig}
use dbus_event_log.Dict
use dbus_event_log.Capture.{Capture, matches}
use dbus_event_log.Capture.Owners.{OwnerChange, update_owner}
use dbus_event_log.Capture.Rewind.{owner, changed}

update_owner-config :
    (c : Capture) (name new : String) → (update_owner c name new).config ≡ c.config
unfolding update_owner
update_owner-config c name new = ground arith

update_owner-lookup :
    (c : Capture) (name new n : String)
    → matches c.config n ≡ true
    → Dict.get n (update_owner c name new).owners
      ≡ (if str_eq name n then owner new else Dict.get n c.owners)
unfolding update_owner
update_owner-lookup c name new n h = ground (
  arith,
  eq_iff name n,
  λ (e : name ≡ n). ap (matches c.config) e,
  Dict.get-remove name c.owners n,
  Dict.get-put name new c.owners n,
)

-- The queued owner changes, replayed in order.
pub replay_changes : Capture → List OwnerChange → Capture
replay_changes c [] = c
replay_changes c (x ∷ xs) = replay_changes (update_owner c x.name x.new_owner) xs

abbrev pub owners_after : (String → String) → List OwnerChange → String → String
owners_after owns [] = owns
owners_after owns (x ∷ xs) = owners_after (changed owns x) xs

-- From a table that shows the owners at some moment, replaying the later changes in order leads
-- to a table that shows the owners after them, for every selected name.
pub replay-owners :
    (c : Capture) (owns : String → String) (cs : List OwnerChange)
    → ((n : String) → matches c.config n ≡ true → Dict.get n c.owners ≡ owner (owns n))
    → (n : String) → matches c.config n ≡ true
    → Dict.get n (replay_changes c cs).owners ≡ owner (owners_after owns cs n)
unfolding replay_changes
replay-owners c owns [] now n h = now n h
replay-owners c owns (x ∷ xs) now n h =
    let d = update_owner c x.name x.new_owner in
    let same = update_owner-config c x.name x.new_owner in
    replay-owners d (changed owns x) xs
      (λ n' h'.
        let m = ap (λ (g : DBusConfig). matches g n') (sym same) ∙ h' in
        update_owner-lookup c x.name x.new_owner n' m ∙ ground (arith, now n' m))
      n (ap (λ (g : DBusConfig). matches g n) same ∙ h)
