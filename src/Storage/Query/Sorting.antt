-- ===== src/Storage/Query/Sorting.antt =====
-- Sorting as `ORDER BY` does it: the order of the input does not matter where no two items tie.
use dbus_event_log.Prelude.{
  ◌+◌, ◌≡◌, refl, sym, ap, subst, ◌∙◌, Bool, true, not, List, [], ◌∷◌, ◌++◌, All, length,
  length-append, if◌then◌else◌, Bool-cases, inl, inr, arith,
}
use dbus_event_log.Storage.Query.{insert_sorted, sorted, selected}

module _ {ℓ} {A : Type ℓ} (test : A → Bool) where
  pub selected-append : (m n : List A) → selected test (m ++ n) ≡ selected test m ++ selected test n
  unfolding selected
  selected-append [] n = refl
  selected-append (x ∷ m) n = elim (Bool-cases (test x)) [
    | inl e ↦ rw e (ap (λ l. x ∷ l) (selected-append m n))
    | inr e ↦ rw e (selected-append m n)
  ]

  pub All-selected {κ} : (P : A → Type κ) (l : List A) → All P l → All P (selected test l)
  unfolding selected
  All-selected P [] h = tt
  All-selected P (x ∷ l) h = elim (Bool-cases (test x)) [
    | inl e ↦ rw e ((h.0, All-selected P l h.1))
    | inr e ↦ rw e (All-selected P l h.1)
  ]

module _ {ℓ} {A : Type ℓ} (before : A → A → Bool) where
  -- Exactly one of two items comes before the other.
  abbrev pub Apart : A → A → Type 0
  Apart a b = before a b ≡ not (before b a)

  abbrev pub IsTransitive : Type ℓ
  IsTransitive = (a b c : A) → before a b ≡ true → before b c ≡ true → before a c ≡ true

  -- The same items in another order, no two of which tie.
  pub data Reordered : List A → List A → Type ℓ where
    empty : Reordered [] []
    moved :
        (m n : List A) {l : List A} (x : A)
        → All (Apart x) m
        → Reordered (m ++ n) l
        → Reordered (m ++ x ∷ n) (x ∷ l)

  insert_comm :
      IsTransitive
      → (a b : A) (l : List A) → Apart a b
      → insert_sorted before a (insert_sorted before b l)
        ≡ insert_sorted before b (insert_sorted before a l)
  unfolding insert_sorted
  insert_comm transitive a b [] apart = ground (arith, apart)
  insert_comm transitive a b (y ∷ l) apart =
      ground (arith, apart, transitive a b y, transitive b a y, insert_comm transitive a b l)

  sorted-moved :
      IsTransitive
      → (x : A) (m n : List A) → All (Apart x) m
      → sorted before (m ++ x ∷ n) ≡ insert_sorted before x (sorted before (m ++ n))
  unfolding sorted
  sorted-moved transitive x [] n apart = refl
  sorted-moved transitive x (y ∷ m) n apart =
      ap (insert_sorted before y) (sorted-moved transitive x m n apart.1)
      ∙ sym (insert_comm transitive x y (sorted before (m ++ n)) apart.0)

  pub sorted-Reordered :
      {m l : List A} → IsTransitive → Reordered m l → sorted before m ≡ sorted before l
  unfolding sorted
  sorted-Reordered transitive empty = refl
  sorted-Reordered transitive (moved m n x apart rest) =
      sorted-moved transitive x m n apart
      ∙ ap (insert_sorted before x) (sorted-Reordered transitive rest)

  pub length-Reordered : {m l : List A} → Reordered m l → length m ≡ length l
  length-Reordered empty = refl
  length-Reordered (moved m n x apart rest) =
      omega (arith, length-append m (x ∷ n), length-append m n, length-Reordered rest)

  pub selected-Reordered :
      (test : A → Bool) {m l : List A}
      → Reordered m l
      → Reordered (selected test m) (selected test l)
  unfolding selected
  selected-Reordered test empty = empty
  selected-Reordered test (moved m n {l} x apart rest) =
      let others =
        subst (λ z. Reordered z (selected test l)) (selected-append test m n)
          (selected-Reordered test rest) in
      elim (Bool-cases (test x)) [
        | inl e ↦
            subst (λ z. Reordered z (if test x then x ∷ selected test l else selected test l))
              (sym (selected-append test m (x ∷ n)))
              (rw e (
                moved (selected test m) (selected test n) x (All-selected test (Apart x) m apart)
                  others))
        | inr e ↦
            subst (λ z. Reordered z (if test x then x ∷ selected test l else selected test l))
              (sym (selected-append test m (x ∷ n))) (rw e others)
      ]

  length-insert_sorted : (x : A) (l : List A) → length (insert_sorted before x l) ≡ length l + 1
  unfolding insert_sorted
  length-insert_sorted x [] = omega arith
  length-insert_sorted x (y ∷ l) = ground (arith, length-insert_sorted x l)

  pub length-sorted : (l : List A) → length (sorted before l) ≡ length l
  unfolding sorted
  length-sorted [] = refl
  length-sorted (x ∷ l) = omega (arith, length-insert_sorted x (sorted before l), length-sorted l)
