-- ===== src/Dict.antt =====
-- Python's `dict` and `OrderedDict`: insertion order, with a value replaced in place.
-- Used for `_owners`, `_credentials` and `_calls` of method_capture.py and for the
-- subscriptions of monitor.py (all under src/dbus_event_log).
use dbus_event_log.Prelude.{
  ◌+◌, ◌≤◌, ◌≡◌, refl, Bool, Option, none, some, List, [], ◌∷◌, ◌++◌, arith, Eq, length,
  length-append, Bool-cases, inl, inr, ap, is_some, if◌then◌else◌, All, true, false,
}

module _ {ℓ} {K V : Type ℓ} ⦃e : Eq K⦄ where
  -- `d.get(k)`
  unfoldable pub get : K → List (K × V) → Option V
  get k [] = none
  get k ((j, v) ∷ d) = if e.beq j k then some v else get k d

  -- `d[k] = v`
  unfoldable pub put : K → V → List (K × V) → List (K × V)
  put k v [] = (k, v) ∷ []
  put k v ((j, w) ∷ d) = if e.beq j k then (j, v) ∷ d else (j, w) ∷ put k v d

  -- `d.pop(k, None)`
  unfoldable pub remove : K → List (K × V) → List (K × V)
  remove k [] = []
  remove k ((j, v) ∷ d) = let rest = remove k d in if e.beq j k then rest else (j, v) ∷ rest

  -- `d.move_to_end(k)`, for a key that is there
  unfoldable pub move_to_end : K → List (K × V) → List (K × V)
  unfolding get remove
  move_to_end k d = elim (get k d) [ none ↦ d | some v ↦ remove k d ++ (k, v) ∷ [] ]

  pub get-put :
      (k : K) (v : V) (d : List (K × V)) (j : K)
      → get j (put k v d) ≡ (if e.beq k j then some v else get j d)
  unfolding get put
  get-put k v [] j = refl
  get-put k v ((i, w) ∷ d) j =
      ground (arith, e.beq_iff i k, e.beq_iff i j, e.beq_iff k j, get-put k v d j)

  pub get-remove :
      (k : K) (d : List (K × V)) (j : K)
      → get j (remove k d) ≡ (if e.beq k j then none else get j d)
  unfolding get remove
  get-remove k [] j = ground arith
  get-remove k ((i, w) ∷ d) j =
      ground (arith, e.beq_iff i k, e.beq_iff i j, e.beq_iff k j, get-remove k d j)

  -- Only a new key makes a dictionary longer.
  pub length-put :
      (k : K) (v : V) (d : List (K × V))
      → length (put k v d) ≡ (if is_some (get k d) then length d else length d + 1)
  unfolding get put
  length-put k v [] = omega arith
  length-put k v ((i, w) ∷ d) = ground (arith, length-put k v d)

  pub length-put_le : (k : K) (v : V) (d : List (K × V)) → length (put k v d) ≤ length d + 1
  length-put_le k v d = ground (arith, length-put k v d)

  pub length-remove_le : (k : K) (d : List (K × V)) → length (remove k d) ≤ length d
  unfolding remove
  length-remove_le k [] = omega arith
  length-remove_le k ((i, w) ∷ d) = ground (arith, length-remove_le k d)

  pub length-remove_of_get :
      (k : K) (v : V) (d : List (K × V)) → get k d ≡ some v → length (remove k d) + 1 ≤ length d
  unfolding get remove
  length-remove_of_get k v [] h = ground arith
  length-remove_of_get k v ((i, w) ∷ d) h =
      ground (arith, length-remove_le k d, length-remove_of_get k v d)

  pub length-move_to_end_le : (k : K) (d : List (K × V)) → length (move_to_end k d) ≤ length d
  unfolding move_to_end
  length-move_to_end_le k d = move (get k d) refl
    where
      move :
          (o : Option V)
          → get k d ≡ o
          → length (elim o [ none ↦ d | some v ↦ remove k d ++ (k, v) ∷ [] ]) ≤ length d
      move none h = omega arith
      move (some v) h =
          omega (arith, length-append (remove k d) ((k, v) ∷ []), length-remove_of_get k v d h)

  -- A predicate on the entries survives each operation.
  pub All-put {κ} :
      (P : K × V → Type κ) (k : K) (v : V) (d : List (K × V))
      → ((j : K) → P (j, v))
      → All P d
      → All P (put k v d)
  unfolding put
  All-put P k v [] new h = (new k, tt)
  All-put P k v ((i, w) ∷ d) new h = by_test (e.beq i k) (All-put P k v d new h.1)
    where
      by_test :
          (b : Bool) → All P (put k v d) → All P (if b then (i, v) ∷ d else (i, w) ∷ put k v d)
      by_test true rest = (new i, h.1)
      by_test false rest = (h.0, rest)

  pub All-remove {κ} :
      (P : K × V → Type κ) (k : K) (d : List (K × V)) → All P d → All P (remove k d)
  unfolding remove
  All-remove P k [] h = tt
  All-remove P k ((i, w) ∷ d) h = by_test (e.beq i k) (All-remove P k d h.1)
    where
      by_test :
          (b : Bool) → All P (remove k d) → All P (if b then remove k d else (i, w) ∷ remove k d)
      by_test true rest = rest
      by_test false rest = (h.0, rest)

  -- No key stands twice.
  abbrev pub IsUnique : List (K × V) → Type ℓ
  IsUnique [] = Unit {ℓ}
  IsUnique ((k, v) ∷ d) = (get k d ≡ none) × IsUnique d

  pub remove-absent : (k : K) (d : List (K × V)) → get k d ≡ none → remove k d ≡ d
  unfolding get remove
  remove-absent k [] h = refl
  remove-absent k ((j, v) ∷ d) h = elim (Bool-cases (e.beq j k)) [
    | inl same ↦ absurd (ground arith)
    | inr other ↦ rw other (ap (λ t. (j, v) ∷ t) (remove-absent k d (ground arith)))
  ]

  pub remove-IsUnique : (k : K) (d : List (K × V)) → IsUnique d → IsUnique (remove k d)
  unfolding remove
  remove-IsUnique k [] h = tt
  remove-IsUnique k ((j, v) ∷ d) h = elim (Bool-cases (e.beq j k)) [
    | inl same ↦ rw same (remove-IsUnique k d h.1)
    | inr other ↦ rw other ((ground (arith, get-remove k d j, h.0), remove-IsUnique k d h.1))
  ]
