-- ===== src/Capture/Rewind.antt =====
-- `_restore_initial_owners` and `_update_owner` of src/dbus_event_log/method_capture.py against the
-- history of ownership on the bus: the snapshot of `start` is rewound to the moment at which the
-- capture became ready, and replaying the queued changes leads to the present again.
use dbus_event_log.Prelude.{
  ◌≡◌, refl, ◌⊎◌, inl, inr, Bool, true, false, not, String, Option, none, some, List, [], ◌∷◌,
  arith, any, str_eq, eq_iff, if◌then◌else◌, Bool-cases, Option-cases, string_eq, sym, ap, ◌∙◌,
  ◌||◌, ◌&&◌,
}
use dbus_event_log.Config.{DBusConfig}
use dbus_event_log.Dict
use dbus_event_log.Capture.{
  Capture, Queued, Result, ok, err, malformed_arguments, matches, is_discovery_barrier,
  body_arguments,
}
use dbus_event_log.Capture.Owners.{
  OwnerChange, owner_change, is_owner_signal, rewind, rewind_name, restore_initial_owners,
}

-- The bus writes "" for no owner.
abbrev pub owner : String → Option String
owner s = if str_eq s "" then none else some s

abbrev with_change : OwnerChange → Result (List OwnerChange) → Result (List OwnerChange)
with_change change (ok l) = ok (change ∷ l)
with_change change (err e) = err e

-- The owner changes in the queue, up to the discovery barrier.
unfoldable pub changes_seen : String → List Queued → Result (List OwnerChange)
changes_seen lookup_sender [] = ok []
changes_seen lookup_sender (q ∷ rest) =
    let others = changes_seen lookup_sender rest in
    elim (is_discovery_barrier lookup_sender q.message) [
      | true ↦ ok []
      | false ↦ elim (is_owner_signal q.message) [
        | false ↦ others
        | true ↦ elim (owner_change (body_arguments q.message)) [
          | none ↦ err malformed_arguments
          | some change ↦ with_change change others
        ]
      ]
    ]

rewind_all :
    DBusConfig → List OwnerChange → List String → List (String × String) → List (String × String)
rewind_all config [] restored owners = owners
rewind_all config (c ∷ cs) restored owners =
    let step = rewind_name config c restored owners in rewind_all config cs step.0 step.1

rewind_seen :
    DBusConfig
    → Result (List OwnerChange)
    → List String
    → List (String × String)
    → Result (List (String × String))
rewind_seen config (ok cs) restored owners = ok (rewind_all config cs restored owners)
rewind_seen config (err e) restored owners = err e

rewind_seen-with_change :
    (config : DBusConfig) (change : OwnerChange) (r : Result (List OwnerChange))
    (restored : List String) (owners : List (String × String))
    → let step = rewind_name config change restored owners in
      rewind_seen config (with_change change r) restored owners ≡ rewind_seen config r step.0 step.1
unfolding rewind_seen rewind_all
rewind_seen-with_change config change (ok l) restored owners = refl
rewind_seen-with_change config change (err e) restored owners = refl

rewind-eq :
    (config : DBusConfig) (s : String) (l : List Queued) (restored : List String)
    (owners : List (String × String))
    → rewind config s l restored owners ≡ rewind_seen config (changes_seen s l) restored owners
unfolding rewind changes_seen rewind_seen rewind_all
rewind-eq config s [] restored owners = refl
rewind-eq config s (q ∷ l) restored owners = elim (Bool-cases (is_discovery_barrier s q.message)) [
  | inl barrier ↦ simp (barrier, rewind, changes_seen, rewind_seen, rewind_all)
  | inr on ↦ elim (Bool-cases (is_owner_signal q.message)) [
    | inr other ↦ simp (on, other, rewind, changes_seen) (rewind-eq config s l restored owners)
    | inl signal ↦ elim (Option-cases (owner_change (body_arguments q.message))) [
      | inl malformed ↦ simp (on, signal, malformed, rewind, changes_seen, rewind_seen)
      | inr (change, e) ↦
          let step = rewind_name config change restored owners in
          simp (on, signal, e, rewind, changes_seen)
            (rewind-eq config s l step.0 step.1
              ∙ sym (rewind_seen-with_change config change (changes_seen s l) restored owners))
    ]
  ]
]

-- The old owner of the first change of a name.
first_old : String → List OwnerChange → Option String
first_old n [] = none
first_old n (c ∷ cs) = if str_eq c.name n then some c.old_owner else first_old n cs

or_owner : Option String → Option String → Option String
or_owner none current = current
or_owner (some old) current = owner old

rewind_name_lookup :
    (config : DBusConfig) (c : OwnerChange) (restored : List String)
    (owners : List (String × String)) (n : String)
    → matches config n ≡ true
    → let step = rewind_name config c restored owners in
      (any (str_eq n) step.0 ≡ (str_eq n c.name || any (str_eq n) restored))
      × (Dict.get n step.1 ≡ (
          if str_eq c.name n && not (any (str_eq n) restored)
          then owner c.old_owner
          else Dict.get n owners))
unfolding rewind_name
rewind_name_lookup config c restored owners n h = elim (Bool-cases (str_eq c.name n)) [
  | inr other ↦ ground (
    arith,
    eq_iff c.name n,
    eq_iff n c.name,
    Dict.get-remove c.name owners n,
    Dict.get-put c.name c.old_owner owners n,
  )
  | inl same ↦
      let e = (eq_iff c.name n).0 same in
      ground (
        arith,
        eq_iff c.name n,
        eq_iff n c.name,
        eq_iff n n,
        ap (λ (x : String). any (str_eq x) restored) e,
        ap (matches config) e,
        Dict.get-remove c.name owners n,
        Dict.get-put c.name c.old_owner owners n,
      )
]

rewind_all_lookup :
    (config : DBusConfig) (cs : List OwnerChange) (restored : List String)
    (owners : List (String × String)) (n : String)
    → matches config n ≡ true
    → Dict.get n (rewind_all config cs restored owners) ≡ (
        if any (str_eq n) restored
        then Dict.get n owners
        else or_owner (first_old n cs) (Dict.get n owners))
unfolding rewind_all first_old or_owner
rewind_all_lookup config [] restored owners n h = ground arith
rewind_all_lookup config (c ∷ cs) restored owners n h =
    let step = rewind_name config c restored owners in
    ground (
      arith,
      rewind_name_lookup config c restored owners n h,
      rewind_all_lookup config cs step.0 step.1 n h,
      eq_iff c.name n,
      eq_iff n c.name,
    )

-- Ownership on the bus: `owns n` is the owner of `n`, "" for none.
abbrev pub changed : (String → String) → OwnerChange → String → String
changed owns c n = if str_eq c.name n then c.new_owner else owns n

-- The changes tell a history that starts at `owns`: each names the owner that it ends.
abbrev pub IsHistory : (String → String) → List OwnerChange → Type 0
IsHistory owns [] = Unit {0}
IsHistory owns (c ∷ cs) = (owns c.name ≡ c.old_owner) × IsHistory (changed owns c) cs

first_old-IsHistory :
    (owns : String → String) (cs : List OwnerChange) (n : String)
    → IsHistory owns cs
    → (first_old n cs ≡ none) ⊎ (first_old n cs ≡ some (owns n))
unfolding first_old
first_old-IsHistory owns [] n h = inl refl
first_old-IsHistory owns (c ∷ cs) n h = elim (Bool-cases (str_eq c.name n)) [
  | inl same ↦
      inr (rw (same, ← h.0) (ap (λ (x : String). some (owns x)) ((eq_iff c.name n).0 same)))
  | inr other ↦ ground (arith, first_old-IsHistory (changed owns c) cs n h.1)
]

-- Some change is about the name.
abbrev pub is_changed : String → List OwnerChange → Bool
is_changed n [] = false
is_changed n (c ∷ cs) = str_eq c.name n || is_changed n cs

first_old_changed :
    (n : String) (cs : List OwnerChange) → first_old n cs ≡ none → is_changed n cs ≡ false
unfolding first_old
first_old_changed n [] h = refl
first_old_changed n (c ∷ cs) h = ground (arith, first_old_changed n cs)

restored_owners :
    (c c' : Capture) (cs : List OwnerChange)
    → restore_initial_owners c ≡ ok c'
    → changes_seen c.lookup_sender c.queue ≡ ok cs
    → c'.owners ≡ rewind_all c.config cs [] c.owners
unfolding restore_initial_owners rewind_seen
restored_owners c c' cs ran seen =
    let rewound = rewind-eq c.config c.lookup_sender c.queue [] c.owners in
    ground (
      arith,
      rewound,
      ap (λ (r : Result (List OwnerChange)). rewind_seen c.config r [] c.owners) seen,
    )

-- Let `owns` be the ownership on the bus at the moment at which the capture became ready, and let
-- the queued owner changes tell its history up to the discovery barrier. Whenever in that time the
-- snapshot took each selected name, so that only the names that never changed are sure to show
-- their owner of that moment, the restored table gives every selected name its owner at `owns`.
pub restore-owners :
    (c c' : Capture) (owns : String → String) (cs : List OwnerChange)
    → restore_initial_owners c ≡ ok c'
    → changes_seen c.lookup_sender c.queue ≡ ok cs
    → IsHistory owns cs
    → ((n : String)
        → matches c.config n ≡ true
        → is_changed n cs ≡ false
        → Dict.get n c.owners ≡ owner (owns n))
    → (n : String) → matches c.config n ≡ true
    → Dict.get n c'.owners ≡ owner (owns n)
unfolding or_owner
restore-owners c c' owns cs ran seen history snapshot n selected =
    let table = rewind_all_lookup c.config cs [] c.owners n selected in
    rw (restored_owners c c' cs ran seen, table)
      (elim (first_old-IsHistory owns cs n history) [
        | inl never ↦ rw never (snapshot n selected (first_old_changed n cs never))
        | inr first ↦ rw first refl
      ])
