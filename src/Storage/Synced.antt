-- ===== src/Storage/Synced.antt =====
-- The time index under each statement of src/dbus_event_log/storage.py, and of any other writer of
-- its tables.
use dbus_event_log.Prelude.{
  ◌≡◌, refl, inl, inr, String, Bool, true, false, Option, none, some, List, [], ◌∷◌, ◌++◌, str_eq,
  eq_iff, if◌then◌else◌, string_eq, is_some, arith, Bool-cases, Option-cases, ap, sym, ◌∙◌, subst,
}
use dbus_event_log.Dict
use dbus_event_log.Capture.{is_text}
use dbus_event_log.Storage.Time.{Formats}
use dbus_event_log.Storage.Tables.{
  Row, TimeEntry, Index, find_event, mark_dirty, forget, forget_all, is_taken, restamped, has_id,
  kept, dirty_entry,
}
use dbus_event_log.Storage.Refresh.{new_index}
use dbus_event_log.Storage.Index.{Agrees, IsSynced}

-- The primary key of `events`.
abbrev pub IsKeyed : List Row → Type 0
IsKeyed [] = Unit {0}
IsKeyed (r ∷ rest) = (is_taken r.id rest ≡ false) × IsKeyed rest

pub find_event-append :
    (k : String) (rows : List Row) (r : Row)
    → find_event k (rows ++ r ∷ []) ≡ (
        if is_some (find_event k rows)
        then find_event k rows
        else if is_text r.id k
        then some r
        else none)
unfolding find_event
find_event-append k [] r = refl
find_event-append k (x ∷ rest) r = ground (arith, find_event-append k rest r)

get-mark_dirty :
    (id : Option String) (index : Index) (k : String)
    → Dict.get k (mark_dirty id index)
      ≡ (if is_text id k then some dirty_entry else Dict.get k index)
unfolding mark_dirty Dict.get
get-mark_dirty none index k = refl
get-mark_dirty (some j) index k = ground (arith, Dict.get-remove j index k)

get-forget :
    (id : Option String) (index : Index) (k : String)
    → Dict.get k (forget id index) ≡ (if is_text id k then none else Dict.get k index)
unfolding forget
get-forget none index k = refl
get-forget (some j) index k = Dict.get-remove j index k

-- A dirty entry agrees with any event.
Agrees-dirty : (f : Formats) (r : Row) → Agrees f (some r) (some dirty_entry)
Agrees-dirty f r h = cc

pub free_id :
    (id : Option String) (rows : List Row) (k : String)
    → is_text id k ≡ true
    → is_taken id rows ≡ false
    → find_event k rows ≡ none
free_id none rows k t h = cc
free_id (some j) rows k t h =
    rw (← (eq_iff j k).0 t)
      (elim (Option-cases (find_event j rows)) [ inl e ↦ e | inr (r, e) ↦ absurd (ground arith) ])

pub insert-IsSynced :
    (f : Formats) (r : Row) (events : List Row) (index : Index)
    → is_taken r.id events ≡ false
    → IsSynced f events index
    → IsSynced f (events ++ r ∷ []) (mark_dirty r.id index)
insert-IsSynced f r events index free h k =
    rw (find_event-append k events r, get-mark_dirty r.id index k)
      (elim (Bool-cases (is_text r.id k)) [
        | inl mine ↦ rw (mine, free_id r.id events k mine free) (Agrees-dirty f r)
        | inr other ↦ rw other (same (find_event k events) (h k))
      ])
  where
    same :
        (o : Option Row)
        → Agrees f o (Dict.get k index)
        → Agrees f (if is_some o then o else none) (Dict.get k index)
    same none a = a
    same (some x) a = a

-- What a DELETE leaves of a row, and of its entry.
abbrev pub left : (Row → Bool) → Option Row → Option Row
left doomed none = none
left doomed (some r) = if doomed r then none else some r

abbrev entry_left : (Row → Bool) → Option Row → Option TimeEntry → Option TimeEntry
entry_left doomed none x = x
entry_left doomed (some r) x = if doomed r then none else x

pub find_event-kept :
    (doomed : Row → Bool) (rows : List Row) (k : String)
    → IsKeyed rows
    → find_event k (kept doomed rows) ≡ left doomed (find_event k rows)
unfolding find_event kept
find_event-kept doomed [] k h = refl
find_event-kept doomed (r ∷ rest) k h = elim (Bool-cases (is_text r.id k)) [
  | inl mine ↦ ground (arith, find_event-kept doomed rest k h.1, free_id r.id rest k mine h.0)
  | inr other ↦ ground (arith, find_event-kept doomed rest k h.1)
]

get-forget_all :
    (doomed : Row → Bool) (rows : List Row) (index : Index) (k : String)
    → IsKeyed rows
    → Dict.get k (forget_all doomed rows index)
      ≡ entry_left doomed (find_event k rows) (Dict.get k index)
unfolding find_event forget_all
get-forget_all doomed [] index k h = refl
get-forget_all doomed (r ∷ rest) index k h =
    let index' = if doomed r then forget r.id index else index in
    let ih = get-forget_all doomed rest index' k h.1 in
    elim (Bool-cases (is_text r.id k)) [
      | inl mine ↦ ground (arith, ih, free_id r.id rest k mine h.0, get-forget r.id index k)
      | inr other ↦ ground (arith, ih, get-forget r.id index k)
    ]

pub delete-IsSynced :
    (f : Formats) (doomed : Row → Bool) (events : List Row) (index : Index)
    → IsKeyed events
    → IsSynced f events index
    → IsSynced f (kept doomed events) (forget_all doomed events index)
delete-IsSynced f doomed events index keyed h k =
    rw (find_event-kept doomed events k keyed, get-forget_all doomed events index k keyed)
      (both (find_event k events) (h k))
  where
    both :
        (o : Option Row)
        → Agrees f o (Dict.get k index)
        → Agrees f (left doomed o) (entry_left doomed o (Dict.get k index))
    both none a = a
    both (some r) a = elim (Bool-cases (doomed r)) [ inl e ↦ rw e tt | inr e ↦ rw e a ]

-- A row between others.
pub find_event-middle :
    (k : String) (before after : List Row) (r : Row)
    → find_event k (before ++ r ∷ after) ≡ (
        if is_some (find_event k before)
        then find_event k before
        else if is_text r.id k
        then some r
        else find_event k after)
unfolding find_event
find_event-middle k [] after r = refl
find_event-middle k (x ∷ before) after r = ground (arith, find_event-middle k before after r)

pub find_event-both :
    (k : String) (before after : List Row)
    → find_event k (before ++ after)
      ≡ (if is_some (find_event k before) then find_event k before else find_event k after)
unfolding find_event
find_event-both k [] after = refl
find_event-both k (x ∷ before) after = ground (arith, find_event-both k before after)

-- A row whose id the others do not have is found under it, and hides none of them.
pub find_event-free :
    (k : String) (before after : List Row) (r : Row)
    → is_taken r.id (before ++ after) ≡ false
    → find_event k (before ++ r ∷ after)
      ≡ (if is_text r.id k then some r else find_event k (before ++ after))
find_event-free k before after r free = elim (Bool-cases (is_text r.id k)) [
  | inl mine ↦ rw mine (
      ground (
        arith,
        mine,
        find_event-middle k before after r,
        find_event-both k before after,
        free_id r.id (before ++ after) k mine free,
      ))
  | inr other ↦
      rw other
        (ground (arith, other, find_event-middle k before after r, find_event-both k before after))
]

-- The entry of `OLD.id` goes, that of `NEW.id` is dirty.
pub update-IsSynced :
    (f : Formats) (before after : List Row) (r : Row) (id : Option String) (value : String)
    (index : Index)
    → is_taken r.id (before ++ after) ≡ false
    → is_taken id (before ++ after) ≡ false
    → IsSynced f (before ++ r ∷ after) index
    → IsSynced f (before ++ restamped id value r ∷ after) (mark_dirty id (forget r.id index))
update-IsSynced f before after r id value index old_free free h k =
    rw
      (
        find_event-free k before after (restamped id value r) free,
        get-mark_dirty id (forget r.id index) k,
        get-forget r.id index k,
      )
      (elim (Bool-cases (is_text id k)) [
        | inl mine ↦ rw mine (Agrees-dirty f (restamped id value r))
        | inr other ↦ rw other (elim (Bool-cases (is_text r.id k)) [
          | inl old ↦ rw (old, free_id r.id (before ++ after) k old old_free) tt
          | inr neither ↦ rw neither (
              subst (λ o. Agrees f o (Dict.get k index))
                (find_event-free k before after r old_free ∙ rw neither refl) (h k))
        ])
      ])

is_text_same : (o : Option String) (j k : String) → is_text o j ≡ true → is_text o k ≡ str_eq j k
is_text_same none j k h = cc
is_text_same (some t) j k h = rw ((eq_iff t j).0 h) refl

find_event-id :
    (k : String) (rows : List Row) (r : Row) → find_event k rows ≡ some r → is_text r.id k ≡ true
unfolding find_event
find_event-id k [] r e = cc
find_event-id k (x ∷ rest) r e = elim (Bool-cases (is_text x.id k)) [
  | inl mine ↦
      let same : x ≡ r = ground (arith, e, mine) in
      ap (λ (y : Row). is_text y.id k) (sym same) ∙ mine
  | inr other ↦ find_event-id k rest r (ground (arith, e, other))
]

-- A REPLACE finds its key free.
pub replaced_free :
    (id : Option String) (rows : List Row)
    → IsKeyed rows
    → is_taken id (kept (has_id id) rows) ≡ false
replaced_free none rows h = refl
replaced_free (some j) rows h =
    rw (find_event-kept (has_id (some j)) rows j h) (gone (find_event j rows) refl)
  where
    gone : (o : Option Row) → find_event j rows ≡ o → is_some (left (has_id (some j)) o) ≡ false
    gone none e = refl
    gone (some x) e = rw (find_event-id j rows x e) refl

has_id-is_text :
    (id : Option String) (k : String) (r : Row)
    → has_id id r ≡ true
    → is_text id k ≡ false
    → is_text r.id k ≡ false
has_id-is_text none k r h e = cc
has_id-is_text (some j) k r h e = rw (is_text_same r.id j k h) e

-- A replaced row leaves all others.
pub replace-IsSynced :
    (f : Formats) (r : Row) (events : List Row) (index : Index)
    → IsKeyed events
    → is_taken r.id (kept (has_id r.id) events) ≡ false
    → IsSynced f events index
    → IsSynced f (kept (has_id r.id) events ++ r ∷ []) (mark_dirty r.id index)
replace-IsSynced f r events index keyed free h k =
    rw (find_event-append k (kept (has_id r.id) events) r, get-mark_dirty r.id index k)
      (elim (Bool-cases (is_text r.id k)) [
        | inl mine ↦
            rw (mine, free_id r.id (kept (has_id r.id) events) k mine free) (Agrees-dirty f r)
        | inr other ↦
            rw (other, find_event-kept (has_id r.id) events k keyed)
              (still other (find_event k events) refl (h k))
      ])
  where
    still :
        is_text r.id k ≡ false
        → (o : Option Row) → find_event k events ≡ o
        → Agrees f o (Dict.get k index)
        → Agrees f
            (if is_some (left (has_id r.id) o) then left (has_id r.id) o else none)
            (Dict.get k index)
    still other none e a = a
    still other (some x) e a = elim (Bool-cases (has_id r.id x)) [
      | inl gone ↦
          absurd (ground (arith, find_event-id k events x e, has_id-is_text r.id k x gone other))
      | inr stays ↦ rw stays a
    ]

pub new_index-IsSynced : (f : Formats) (events : List Row) → IsSynced f events (new_index events)
unfolding new_index find_event Dict.get
new_index-IsSynced f [] k = tt
new_index-IsSynced f (r ∷ rest) k = by_id r.id (new_index-IsSynced f rest k)
  where
    by_id :
        (id : Option String)
        → Agrees f (find_event k rest) (Dict.get k (new_index rest))
        → Agrees f (if is_text id k then some r else find_event k rest) (
            Dict.get k
              (elim id [ none ↦ new_index rest | some j ↦ (j, dirty_entry) ∷ new_index rest ]))
    by_id none a = a
    by_id (some j) a = elim (Bool-cases (str_eq j k)) [
      | inl same ↦ rw same (Agrees-dirty f r)
      | inr other ↦ rw other a
    ]
