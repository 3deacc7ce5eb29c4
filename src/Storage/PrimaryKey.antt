-- ===== src/Storage/PrimaryKey.antt =====
-- The ids as a primary key under the writes to `events` in src/dbus_event_log/storage.py.
use dbus_event_log.Prelude.{
  ◌≡◌, refl, inl, inr, String, Bool, true, false, Option, none, some, List, [], ◌∷◌, ◌++◌,
  if◌then◌else◌, string_eq, is_some, arith, Bool-cases, ap, is_text-eq,
}
use text.Mathlib.TextPositions.{eq_refl}
use dbus_event_log.Capture.{is_text}
use dbus_event_log.Storage.Tables.{Row, find_event, is_taken, kept}
use dbus_event_log.Storage.Synced.{
  IsKeyed, left, find_event-append, find_event-kept, find_event-middle, find_event-both,
}

pub append-IsKeyed :
    (r : Row) (rows : List Row)
    → is_taken r.id rows ≡ false
    → IsKeyed rows
    → IsKeyed (rows ++ r ∷ [])
append-IsKeyed r [] free h = (absent r.id, tt)
  where
    absent : (o : Option String) → is_taken o [] ≡ false
    absent none = refl
    absent (some j) = unfold find_event in refl
append-IsKeyed r (x ∷ rest) free h =
    (apart x.id h.0 refl, append-IsKeyed r rest (rest_free r.id free) h.1)
  where
    rest_free : (o : Option String) → is_taken o (x ∷ rest) ≡ false → is_taken o rest ≡ false
    rest_free none f = refl
    rest_free (some j) f = unfold find_event in ground arith

    clash : (j : String) → x.id ≡ some j → r.id ≡ some j → ⊥
    clash j e g =
        unfold find_event in
        ground (
          arith,
          eq_refl j,
          free,
          ap (λ (o : Option String). is_taken o (x ∷ rest)) g,
          ap (λ (o : Option String). is_text o j) e,
        )

    apart :
        (o : Option String)
        → is_taken o rest ≡ false
        → x.id ≡ o
        → is_taken o (rest ++ r ∷ []) ≡ false
    apart none f e = refl
    apart (some j) f e = elim (Bool-cases (is_text r.id j)) [
      | inl same ↦ absurd (clash j e (is_text-eq r.id j same))
      | inr other ↦ rw (find_event-append j rest r) (ground arith)
    ]

pub kept-IsKeyed :
    (doomed : Row → Bool) (rows : List Row) → IsKeyed rows → IsKeyed (kept doomed rows)
unfolding kept
kept-IsKeyed doomed [] h = tt
kept-IsKeyed doomed (x ∷ rest) h = by_test (doomed x) (kept-IsKeyed doomed rest h.1)
  where
    still_free :
        (o : Option String) → is_taken o rest ≡ false → is_taken o (kept doomed rest) ≡ false
    still_free none f = refl
    still_free (some j) f = rw (find_event-kept doomed rest j h.1) (none_left (find_event j rest) f)
      where
        none_left : (o : Option Row) → is_some o ≡ false → is_some (left doomed o) ≡ false
        none_left none e = refl
        none_left (some y) e = cc

    by_test :
        (b : Bool)
        → IsKeyed (kept doomed rest)
        → IsKeyed (if b then kept doomed rest else x ∷ kept doomed rest)
    by_test true k = k
    by_test false k = (still_free x.id h.0, k)

taken-middle :
    (o : Option String) (before after : List Row) (r : Row)
    → is_taken o (before ++ r ∷ after) ≡ false
    → is_taken o (before ++ after) ≡ false
taken-middle none before after r h = refl
taken-middle (some j) before after r h =
    ground (arith, h, find_event-middle j before after r, find_event-both j before after)

-- Taking a row from between others, and putting one there.
pub middle-IsKeyed :
    (before after : List Row) (r : Row)
    → IsKeyed (before ++ r ∷ after)
    → IsKeyed (before ++ after) × (is_taken r.id (before ++ after) ≡ false)
middle-IsKeyed [] after r h = (h.1, h.0)
middle-IsKeyed (x ∷ before) after r h =
    let rest = middle-IsKeyed before after r h.1 in
    ((taken-middle x.id before after r h.0, rest.0), apart r.id refl rest.1)
  where
    apart :
        (o : Option String)
        → r.id ≡ o
        → is_taken o (before ++ after) ≡ false
        → is_taken o (x ∷ before ++ after) ≡ false
    apart none e f = refl
    apart (some j) e f = elim (Bool-cases (is_text x.id j)) [
      | inl same ↦ absurd (
          ground (
            arith,
            eq_refl j,
            h.0,
            ap (λ (o : Option String). is_taken o (before ++ r ∷ after)) (is_text-eq x.id j same),
            find_event-middle j before after r,
            ap (λ (o : Option String). is_text o j) e,
          ))
      | inr other ↦ unfold find_event in ground (arith, other, f)
    ]

pub insert-IsKeyed :
    (before after : List Row) (r : Row)
    → IsKeyed (before ++ after)
    → is_taken r.id (before ++ after) ≡ false
    → IsKeyed (before ++ r ∷ after)
insert-IsKeyed [] after r h free = (free, h)
insert-IsKeyed (x ∷ before) after r h free =
    (apart x.id refl h.0, insert-IsKeyed before after r h.1 (rest_free r.id free))
  where
    rest_free :
        (o : Option String)
        → is_taken o (x ∷ before ++ after) ≡ false
        → is_taken o (before ++ after) ≡ false
    rest_free none f = refl
    rest_free (some j) f = unfold find_event in ground arith

    apart :
        (o : Option String)
        → x.id ≡ o
        → is_taken o (before ++ after) ≡ false
        → is_taken o (before ++ r ∷ after) ≡ false
    apart none e f = refl
    apart (some j) e f = elim (Bool-cases (is_text r.id j)) [
      | inl same ↦ absurd (
          unfold find_event in
          ground (
            arith,
            eq_refl j,
            free,
            ap (λ (o : Option String). is_taken o (x ∷ before ++ after)) (is_text-eq r.id j same),
            ap (λ (o : Option String). is_text o j) e,
          ))
      | inr other ↦
          ground
            (arith, f, other, find_event-middle j before after r, find_event-both j before after)
    ]
