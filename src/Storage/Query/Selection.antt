-- ===== src/Storage/Query/Selection.antt =====
-- Which rows `query` of src/dbus_event_log/storage.py returns: sorting and cutting add none.
use dbus_event_log.Prelude.{
  ℕ, zero, suc, ◌≡◌, Bool, true, List, [], ◌∷◌, All, take, drop, Bool-cases, inl, inr,
}
use dbus_event_log.Event.{ℤ, pos, negsuc}
use dbus_event_log.Storage.Time.{Formats, utc_timestamp}
use dbus_event_log.Storage.Tables.{Row}
use dbus_event_log.Storage.Query.{
  Sqlite, Filters, Bounds, Hit, selects, selected, sorted, insert_sorted, comes_before, window,
  rows_of_hits, read_rows, scanned_hits,
}

module _ {ℓ κ} {A : Type ℓ} (P : A → Type κ) where
  All-take : (n : ℕ) (l : List A) → All P l → All P (take n l)
  All-take zero l h = tt
  All-take (suc n) [] h = tt
  All-take (suc n) (x ∷ l) h = (h.0, All-take n l h.1)

  All-drop : (n : ℕ) (l : List A) → All P l → All P (drop n l)
  All-drop zero l h = h
  All-drop (suc n) [] h = tt
  All-drop (suc n) (x ∷ l) h = All-drop n l h.1

  All-window : (limit offset : ℤ) (l : List A) → All P l → All P (window limit offset l)
  All-window (pos n) (pos m) l h = All-take n (drop m l) (All-drop m l h)
  All-window (pos n) (negsuc m) l h = All-take n l h
  All-window (negsuc n) (pos m) l h = All-drop m l h
  All-window (negsuc n) (negsuc m) l h = h

  All-insert_sorted :
      (before : A → A → Bool) (x : A) (l : List A)
      → P x
      → All P l
      → All P (insert_sorted before x l)
  unfolding insert_sorted
  All-insert_sorted before x [] p h = (p, tt)
  All-insert_sorted before x (y ∷ l) p h = elim (Bool-cases (before x y)) [
    | inl e ↦ rw e ((p, h))
    | inr e ↦ rw e ((h.0, All-insert_sorted before x l p h.1))
  ]

  All-sorted : (before : A → A → Bool) (l : List A) → All P l → All P (sorted before l)
  unfolding sorted
  All-sorted before [] h = tt
  All-sorted before (x ∷ l) h =
      All-insert_sorted before x (sorted before l) h.0 (All-sorted before l h.1)

-- A row with the instant of its timestamp.
abbrev pub hit_of : Formats → Row → Hit
hit_of f r = record { instant = utc_timestamp f r.timestamp; row = r }

abbrev IsSelected : Formats → (Hit → Bool) → Hit → Type 0
IsSelected f test h = test (hit_of f h.row) ≡ true

selected-IsSelected :
    (f : Formats) (test : Hit → Bool) (rows : List Row)
    → All (IsSelected f test) (selected test (scanned_hits f rows))
unfolding selected scanned_hits
selected-IsSelected f test [] = tt
selected-IsSelected f test (r ∷ rest) = elim (Bool-cases (test (hit_of f r))) [
  | inl e ↦ rw e ((e, selected-IsSelected f test rest))
  | inr e ↦ rw e (selected-IsSelected f test rest)
]

All-rows_of_hits {ℓ} :
    (P : Row → Type ℓ) (hits : List Hit)
    → All (λ (h : Hit). P h.row) hits
    → All P (rows_of_hits hits)
unfolding rows_of_hits
All-rows_of_hits P [] h = tt
All-rows_of_hits P (x ∷ hits) h = (h.0, All-rows_of_hits P hits h.1)

-- Every row that is read meets the filters.
pub All-read_rows :
    (f : Formats) (s : Sqlite) (b : Bounds) (q : Filters) (rows : List Row)
    → All (λ (r : Row). selects s b q (hit_of f r) ≡ true) (read_rows s b q (scanned_hits f rows))
unfolding read_rows
All-read_rows f s b q rows =
    let hits = selected (selects s b q) (scanned_hits f rows) in
    let P = IsSelected f (selects s b q) in
    All-rows_of_hits (λ (r : Row). selects s b q (hit_of f r) ≡ true)
      (window q.limit q.offset (sorted (comes_before s) hits))
      (All-window P q.limit q.offset (sorted (comes_before s) hits)
        (All-sorted P (comes_before s) hits (selected-IsSelected f (selects s b q) rows)))
