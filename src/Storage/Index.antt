-- ===== src/Storage/Index.antt =====
-- The time index of src/dbus_event_log/storage.py against the events that it stands for, and its
-- refresh.
use dbus_event_log.Prelude.{
  ℕ, zero, suc, ◌≤◌, ◌<◌, ◌≡◌, refl, inl, inr, String, true, false, Option, none, some, List, [],
  ◌∷◌, any, length, take, str_eq, eq_iff, if◌then◌else◌, string_eq, is_some, arith, Bool-cases,
  List-cases, ap, sym, ◌∙◌,
}
use mathlib.Core.Option
use text.Mathlib.TextPositions.{eq_refl}
use dbus_event_log.Dict
use dbus_event_log.Storage.Time.{Formats, utc_timestamp}
use dbus_event_log.Storage.Tables.{Row, TimeEntry, Index, Database, find_event}
use dbus_event_log.Storage.Refresh.{
  is_pending, pending_ids, write_batch, refresh_loop, event_utc, refresh_tables,
}

-- An entry stands for an event; when it is clean it holds the event's instant.
abbrev pub Agrees : Formats → Option Row → Option TimeEntry → Type 0
Agrees f none none = Unit {0}
Agrees f none (some e) = ⊥
Agrees f (some r) none = ⊥
Agrees f (some r) (some e) = e.dirty ≡ false → e.utc_timestamp ≡ utc_timestamp f r.timestamp

-- Every event with an id has its entry, and every entry its event.
abbrev pub IsSynced : Formats → List Row → Index → Type 0
IsSynced f events index = (k : String) → Agrees f (find_event k events) (Dict.get k index)

abbrev fresh : Formats → List Row → String → TimeEntry
fresh f events k = record { utc_timestamp = event_utc f events k; dirty = false }

get-write_batch :
    (f : Formats) (events : List Row) (ids : List String) (index : Index) (k : String)
    → Dict.get k (write_batch f events ids index) ≡ (
        if any (str_eq k) ids
        then Option.map (λ e. fresh f events k) (Dict.get k index)
        else Dict.get k index)
unfolding Dict.get write_batch
get-write_batch f events ids [] k = ground arith
get-write_batch f events ids ((i, e) ∷ rest) k = elim (Bool-cases (str_eq i k)) [
  | inr other ↦ rw other (get-write_batch f events ids rest k)
  | inl same ↦ rw ((eq_iff i k).0 same, eq_refl k) (ground arith)
]

write_batch-IsSynced :
    (f : Formats) (events : List Row) (ids : List String) (index : Index)
    → IsSynced f events index
    → IsSynced f events (write_batch f events ids index)
unfolding event_utc
write_batch-IsSynced f events ids index h k =
    rw (get-write_batch f events ids index k)
      (by_cases (find_event k events) refl (Dict.get k index) (h k))
  where
    by_cases :
        (o : Option Row)
        → find_event k events ≡ o
        → (x : Option TimeEntry) → Agrees f o x
        → Agrees f o (if any (str_eq k) ids then Option.map (λ e. fresh f events k) x else x)
    by_cases none found none a = ground arith
    by_cases none found (some e) a = absurd a
    by_cases (some r) found none a = absurd a
    by_cases (some r) found (some e) a = elim (Bool-cases (any (str_eq k) ids)) [
      | inl written ↦ rw written (λ clean. rw (event_utc, found) refl)
      | inr left ↦ rw left a
    ]

pending-write_batch_le :
    (f : Formats) (events : List Row) (ids : List String) (index : Index)
    → length (pending_ids events (write_batch f events ids index))
      ≤ length (pending_ids events index)
unfolding pending_ids write_batch is_pending
pending-write_batch_le f events ids [] = omega arith
pending-write_batch_le f events ids ((k, e) ∷ rest) =
    ground (arith, pending-write_batch_le f events ids rest)

pending-write_batch_lt :
    (f : Formats) (events : List Row) (ids : List String) (p : String) (ps : List String)
    (index : Index)
    → pending_ids events index ≡ p ∷ ps
    → any (str_eq p) ids ≡ true
    → length (pending_ids events (write_batch f events ids index))
      < length (pending_ids events index)
unfolding pending_ids write_batch is_pending
pending-write_batch_lt f events ids p ps [] h a = cc
pending-write_batch_lt f events ids p ps ((k, e) ∷ rest) h a =
    ground (
      arith,
      pending-write_batch_le f events ids rest,
      pending-write_batch_lt f events ids p ps rest,
    )

length-pending_ids_le :
    (events : List Row) (index : Index) → length (pending_ids events index) ≤ length index
unfolding pending_ids
length-pending_ids_le events [] = omega arith
length-pending_ids_le events (x ∷ rest) = ground (arith, length-pending_ids_le events rest)

-- With fuel for each pending entry the loop ends because nothing is pending.
refresh_loop_done :
    (f : Formats) (events : List Row) (fuel : ℕ) (index : Index)
    → length (pending_ids events index) < fuel
    → pending_ids events (refresh_loop f events fuel index) ≡ []
unfolding refresh_loop
refresh_loop_done f events zero index h = absurd (omega arith)
refresh_loop_done f events (suc fuel) index h = elim (List-cases (pending_ids events index)) [
  | inl nothing ↦ simp (refresh_loop, nothing)
  | inr (p, ps, e) ↦
      let ids = p ∷ take 511 ps in
      simp (refresh_loop, e)
        (refresh_loop_done f events fuel (write_batch f events ids index)
          (omega (arith, pending-write_batch_lt f events ids p ps index e (rw (eq_refl p) refl))))
]

pub refresh_loop-IsSynced :
    (f : Formats) (events : List Row) (fuel : ℕ) (index : Index)
    → IsSynced f events index
    → IsSynced f events (refresh_loop f events fuel index)
unfolding refresh_loop
refresh_loop-IsSynced f events zero index h = h
refresh_loop-IsSynced f events (suc fuel) index h = elim (List-cases (pending_ids events index)) [
  | inl nothing ↦ simp (refresh_loop, nothing) h
  | inr (p, ps, e) ↦
      simp (refresh_loop, e)
        (refresh_loop-IsSynced f events fuel (write_batch f events (p ∷ take 511 ps) index)
          (write_batch-IsSynced f events (p ∷ take 511 ps) index h))
]

nothing_pending :
    (events : List Row) (index : Index) (k : String) (e : TimeEntry)
    → pending_ids events index ≡ []
    → Dict.get k index ≡ some e
    → is_pending events (k, e) ≡ false
unfolding pending_ids Dict.get
nothing_pending events [] k e h g = cc
nothing_pending events ((i, x) ∷ rest) k e h g = elim (Bool-cases (str_eq i k)) [
  | inr other ↦ nothing_pending events rest k e (ground arith) (ground arith)
  | inl same ↦
      let here : x ≡ e = ground arith in
      ap (λ (j : String). is_pending events (j, e)) (sym ((eq_iff i k).0 same))
      ∙ ap (λ (y : TimeEntry). is_pending events (i, y)) (sym here)
      ∙ ground arith
]

-- What the index should say of an id: the event's instant, clean, and nothing without an event.
abbrev pub recomputed : Formats → Option Row → Option TimeEntry
recomputed f none = none
recomputed f (some r) = some (record { utc_timestamp = utc_timestamp f r.timestamp; dirty = false })

Agrees-clean :
    (f : Formats) (o : Option Row) (x : Option TimeEntry)
    → Agrees f o x
    → ((e : TimeEntry) → is_some o ≡ true → x ≡ some e → e.dirty ≡ false)
    → x ≡ recomputed f o
Agrees-clean f none none a clean = refl
Agrees-clean f none (some e) a clean = absurd a
Agrees-clean f (some r) none a clean = absurd a
Agrees-clean f (some r) (some e) a clean = let d = clean e refl refl in let u = a d in ground arith

-- Refreshing a synchronised index ends, and leaves for every id exactly what recomputing from the
-- events gives: the instant of the event with that id, clean, and no entry without an event.
pub refresh_tables-recomputed :
    (f : Formats) (db : Database) (index : Index) (k : String)
    → db.index ≡ some index
    → IsSynced f db.events index
    → (after : Index) × ((refresh_tables f db).index ≡ some after)
      × (Dict.get k after ≡ recomputed f (find_event k db.events))
unfolding refresh_tables
refresh_tables-recomputed f db index k e h =
    let after = refresh_loop f db.events (suc (length index)) index in
    let enough : length (pending_ids db.events index) < suc (length index) =
      omega (arith, length-pending_ids_le db.events index) in
    let done = refresh_loop_done f db.events (suc (length index)) index enough in
    (
      after,
      simp e,
      Agrees-clean f (find_event k db.events) (Dict.get k after)
          (refresh_loop-IsSynced f db.events (suc (length index)) index h k)
          (λ x there g. clean_of k x there (nothing_pending db.events after k x done g)),
    )
  where
    clean_of :
        (k : String) (x : TimeEntry)
        → is_some (find_event k db.events) ≡ true
        → is_pending db.events (k, x) ≡ false
        → x.dirty ≡ false
    clean_of k x there p = unfold is_pending in ground arith
