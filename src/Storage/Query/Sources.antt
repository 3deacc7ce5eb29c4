-- ===== src/Storage/Query/Sources.antt =====
-- The two sources of a query in src/dbus_event_log/storage.py: the time index and a scan of
-- `events`.
use dbus_event_log.Prelude.{
  ℕ, ◌≡◌, refl, sym, ap, subst, ◌∙◌, String, Bool, true, false, not, Option, none, some, List, [],
  ◌∷◌, ◌++◌, All, string_eq, is_some, is_text, is_text-eq, str_eq, eq_iff, ◌||◌, ◌&&◌,
  if◌then◌else◌, Bool-cases, inl, inr, arith,
}
use text.Mathlib.TextPositions.{eq_refl}
use dbus_event_log.Dict
use dbus_event_log.Dict.{IsUnique}
use dbus_event_log.Storage.Time.{Formats, utc_timestamp}
use dbus_event_log.Storage.Tables.{Row, TimeEntry, Index, find_event}
use dbus_event_log.Storage.Refresh.{has_null_id}
use dbus_event_log.Storage.Index.{recomputed}
use dbus_event_log.Storage.Synced.{IsKeyed, free_id}
use dbus_event_log.Storage.Query.{
  Sqlite, IsOrder, Hit, comes_before, instant_after, id_after, with_hit, indexed_hits, scanned_hits,
}
use dbus_event_log.Storage.Query.Sorting.{Apart, IsTransitive, Reordered, empty, moved}

keys_transitive :
    (s : Sqlite)
    → IsOrder s
    → (i : Option ℕ) (j : Option ℕ) (k : Option ℕ) (a b c : Option String)
    → (instant_after i j || (not (instant_after j i) && id_after s a b)) ≡ true
    → (instant_after j k || (not (instant_after k j) && id_after s b c)) ≡ true
    → (instant_after i k || (not (instant_after k i) && id_after s a c)) ≡ true
keys_transitive s o i j k none b c p q = ground arith
keys_transitive s o i j k (some a) none c p q = ground arith
keys_transitive s o i j k (some a) (some b) none p q = ground arith
keys_transitive s o i j k (some a) (some b) (some c) p q = ground (arith, o.transitive c b a)

-- The order of a query is that of instants, then of ids.
pub comes_before-IsTransitive : (s : Sqlite) → IsOrder s → IsTransitive (comes_before s)
unfolding comes_before
comes_before-IsTransitive s o a b c =
    keys_transitive s o a.instant b.instant c.instant a.row.id b.row.id c.row.id

keys_apart :
    (s : Sqlite)
    → IsOrder s
    → (i j : Option ℕ) (a b : String) → str_eq b a ≡ false
    → (instant_after i j || (not (instant_after j i) && s.precedes b a))
      ≡ not (instant_after j i || (not (instant_after i j) && s.precedes a b))
keys_apart s o i j a b differ =
    ground (arith, o.transitive a b a, o.irreflexive a, o.connected a b, eq_iff b a)

ids-Apart :
    (s : Sqlite)
    → IsOrder s
    → (x y : Hit) (a b : String) → x.row.id ≡ some a
    → y.row.id ≡ some b
    → str_eq b a ≡ false
    → Apart (comes_before s) x y
unfolding comes_before
ids-Apart s o x y a b p q differ = simp (p, q) (keys_apart s o x.instant y.instant a b differ)

-- A hit of another id.
abbrev Other : String → Hit → Type 0
Other k h = (j : String) × (h.row.id ≡ some j) × (str_eq j k ≡ false)

find_event-id :
    (k : String) (events : List Row) (r : Row) → find_event k events ≡ some r → r.id ≡ some k
unfolding find_event
find_event-id k [] r h = absurd (ground (arith, h))
find_event-id k (x ∷ rest) r h = elim (Bool-cases (is_text x.id k)) [
  | inl mine ↦
      let same : x ≡ r = ground arith in ap (λ (y : Row). y.id) (sym same) ∙ is_text-eq x.id k mine
  | inr other ↦ find_event-id k rest r (ground arith)
]

-- The place of the hit of an id among those of the index.
record Split (events : List Row) (index : Index) (k : String) (h : Hit) : Type 0 where
  m : List Hit
  n : List Hit
  whole : indexed_hits events index ≡ m ++ h ∷ n
  without : indexed_hits events (Dict.remove k index) ≡ m ++ n
  others : All (Other k) m

Split-index :
    (events : List Row) (index : Index) (k : String) (e : TimeEntry) (r : Row)
    → IsUnique index
    → Dict.get k index ≡ some e
    → find_event k events ≡ some r
    → Split events index k (record { instant = e.utc_timestamp; row = r })
unfolding indexed_hits Dict.get Dict.remove
Split-index events [] k e r u g there = absurd (ground (arith, g))
Split-index events ((j, x) ∷ rest) k e r u g there = elim (Bool-cases (str_eq j k)) [
  | inl same ↦
      let e' : x ≡ e = ground arith in
      let j' : j ≡ k = (eq_iff j k).0 same in
      let absent : Dict.get k rest ≡ none = ap (λ (z : String). Dict.get z rest) (sym j') ∙ u.0 in
      record {
        m = [];
        n = indexed_hits events rest;
        whole =
            ap (λ (o : Option Row). with_hit o x (indexed_hits events rest))
              (ap (λ (z : String). find_event z events) j' ∙ there)
            ∙ ap
                (λ (y : TimeEntry).
                  record { instant = y.utc_timestamp; row = r } ∷ indexed_hits events rest)
                e';
        without = rw same (ap (indexed_hits events) (Dict.remove-absent k rest absent));
        others = tt;
      }
  | inr differ ↦
      by_event differ (Split-index events rest k e r u.1 (ground arith) there) (find_event j events)
        refl
]
  where
    by_event :
        str_eq j k ≡ false
        → Split events rest k (record { instant = e.utc_timestamp; row = r })
        → (o : Option Row) → find_event j events ≡ o
        → Split events ((j, x) ∷ rest) k (record { instant = e.utc_timestamp; row = r })
    by_event differ s none found = record {
      m = s.m;
      n = s.n;
      whole = ap (λ (o : Option Row). with_hit o x (indexed_hits events rest)) found ∙ s.whole;
      without = rw differ (
          ap (λ (o : Option Row). with_hit o x (indexed_hits events (Dict.remove k rest))) found
          ∙ s.without);
      others = s.others;
    }
    by_event differ s (some y) found =
        let hit : Hit = record { instant = x.utc_timestamp; row = y } in
        record {
          m = hit ∷ s.m;
          n = s.n;
          whole =
              ap (λ (o : Option Row). with_hit o x (indexed_hits events rest)) found
              ∙ ap (λ l. hit ∷ l) s.whole;
          without = rw differ (
              ap (λ (o : Option Row). with_hit o x (indexed_hits events (Dict.remove k rest))) found
              ∙ ap (λ l. hit ∷ l) s.without);
          others = ((j, find_event-id j events y found, differ), s.others);
        }

find_event-skip :
    (r : Row) (rest : List Row) (j k : String)
    → r.id ≡ some k
    → str_eq j k ≡ false
    → find_event j (r ∷ rest) ≡ find_event j rest
unfolding find_event
find_event-skip r rest j k id differ =
    ground (arith, ap (λ (o : Option String). is_text o j) id, eq_iff k j, eq_iff j k)

find_event-head :
    (r : Row) (rest : List Row) (k : String) → r.id ≡ some k → find_event k (r ∷ rest) ≡ some r
unfolding find_event
find_event-head r rest k id = ground (arith, ap (λ (o : Option String). is_text o k) id, eq_refl k)

-- An event whose id has no entry gives no hit.
indexed_hits-skip :
    (r : Row) (rest : List Row) (index : Index) (k : String)
    → r.id ≡ some k
    → Dict.get k index ≡ none
    → indexed_hits (r ∷ rest) index ≡ indexed_hits rest index
unfolding indexed_hits Dict.get
indexed_hits-skip r rest [] k id g = refl
indexed_hits-skip r rest ((j, x) ∷ index) k id g =
    let other = guarded_entry (str_eq j k) g in
    ap (λ (o : Option Row). with_hit o x (indexed_hits (r ∷ rest) index))
      (find_event-skip r rest j k id other.0)
    ∙ ap (with_hit (find_event j rest) x) (indexed_hits-skip r rest index k id other.1)
  where
    guarded_entry :
        (b : Bool)
        → (if b then some x else Dict.get k index) ≡ none
        → (b ≡ false) × (Dict.get k index ≡ none)
    guarded_entry true e = absurd (ground (arith, e))
    guarded_entry false e = (refl, e)

indexed_hits-nil : (index : Index) → indexed_hits [] index ≡ []
unfolding indexed_hits find_event
indexed_hits-nil [] = refl
indexed_hits-nil (x ∷ index) = indexed_hits-nil index

Other-Apart :
    (s : Sqlite)
    → IsOrder s
    → (x : Hit) (k : String) → x.row.id ≡ some k
    → (m : List Hit) → All (Other k) m
    → All (Apart (comes_before s) x) m
Other-Apart s o x k id [] h = tt
Other-Apart s o x k id (y ∷ m) h =
    (ids-Apart s o x y k h.0.0 id h.0.1 h.0.2, Other-Apart s o x k id m h.1)

-- Where the index is what recomputing it gives, it holds the hits of a scan.
pub sources-Reordered :
    (s : Sqlite)
    → IsOrder s
    → (f : Formats) (events : List Row) (index : Index) → has_null_id events ≡ false
    → IsKeyed events
    → IsUnique index
    → ((k : String) → Dict.get k index ≡ recomputed f (find_event k events))
    → Reordered (comes_before s) (indexed_hits events index) (scanned_hits f events)
unfolding has_null_id scanned_hits
sources-Reordered s o f [] index n keyed u agree =
    subst (λ l. Reordered (comes_before s) l []) (sym (indexed_hits-nil index)) empty
sources-Reordered s o f (r ∷ rest) index n keyed u agree =
    by_id r.id refl (has_null_id rest) refl n (λ i n'. sources-Reordered s o f rest i n' keyed.1)
  where
    agree_rest :
        (k : String)
        → r.id ≡ some k
        → (j : String) → Dict.get j (Dict.remove k index) ≡ recomputed f (find_event j rest)
    agree_rest k id j = elim (Bool-cases (str_eq k j)) [
      | inl same ↦
          Dict.get-remove k index j
          ∙ rw
              (
                same,
                free_id r.id rest j (ap (λ (o : Option String). is_text o j) id ∙ same) keyed.0,
              )
              refl
      | inr differ ↦
          Dict.get-remove k index j
          ∙ rw differ (
              agree j
              ∙ ap (recomputed f)
                  (find_event-skip r rest j k id (ground (arith, eq_iff k j, eq_iff j k, differ))))
    ]

    by_id :
        (i : Option String)
        → r.id ≡ i
        → (b : Bool) → has_null_id rest ≡ b
        → (not (is_some i) || b) ≡ false
        → ((index' : Index)
            → has_null_id rest ≡ false
            → IsUnique index'
            → ((j : String) → Dict.get j index' ≡ recomputed f (find_event j rest))
            → Reordered (comes_before s) (indexed_hits rest index') (scanned_hits f rest))
        → Reordered
            (comes_before s)
            (indexed_hits (r ∷ rest) index)
            (record { instant = utc_timestamp f r.timestamp; row = r } ∷ scanned_hits f rest)
    by_id none id b e h ih = absurd (ground (arith, h))
    by_id (some k) id b e h ih =
        let hit : Hit = record { instant = utc_timestamp f r.timestamp; row = r } in
        let there = find_event-head r rest k id in
        let at =
          Split-index (r ∷ rest) index k
            (record { utc_timestamp = utc_timestamp f r.timestamp; dirty = false }) r u
            (agree k ∙ ap (recomputed f) there) there in
        let rest_index = Dict.remove k index in
        let skip =
          indexed_hits-skip r rest rest_index k id
            (ground (arith, Dict.get-remove k index k, eq_refl k)) in
        let rest_hits =
          ih rest_index (e ∙ ground (arith, h)) (Dict.remove-IsUnique k index u)
            (agree_rest k id) in
        subst (λ l. Reordered (comes_before s) l (hit ∷ scanned_hits f rest)) (sym at.whole)
          (moved at.m at.n hit (Other-Apart s o hit k id at.m at.others) (
            subst (λ l. Reordered (comes_before s) l (scanned_hits f rest)) (sym skip ∙ at.without)
              rest_hits))
