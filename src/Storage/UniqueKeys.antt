-- ===== src/Storage/UniqueKeys.antt =====
-- `event_id` as the primary key of `event_timestamps` under the writes of
-- src/dbus_event_log/storage.py and of any other writer.
use dbus_event_log.Prelude.{
  ◌++◌, drop, ℕ, zero, suc, ◌≡◌, refl, String, Bool, false, Option, none, some, List, [], ◌∷◌,
  string_eq, is_some, if◌then◌else◌, if_elim, subst, some_injective, guarded, arith, length, take,
  List-cases, inl, inr,
}
use text.Mathlib.TextPositions.{eq_refl}
use dbus_event_log.Dict
use dbus_event_log.Dict.{IsUnique}
use dbus_event_log.Storage.Time.{Formats}
use dbus_event_log.Storage.Tables.{
  Row, TimeEntry, Index, Database, find_event, mark_dirty, forget, forget_all, insert_row,
  delete_rows, update_row, update_between, replace_row, is_taken, dirty_entry,
}
use dbus_event_log.Storage.Refresh.{
  write_batch, pending_ids, refresh_loop, refresh_tables, new_index, create_index,
  init_timestamp_index,
}
use dbus_event_log.Storage.Index.{Agrees}
use dbus_event_log.Storage.Synced.{IsKeyed, new_index-IsSynced}
use dbus_event_log.Storage.Writes.{
  OnIndex, OnIndex-map, IsConsistent, Write, inserted, deleted, updated, replaced, opened,
  refreshed, History, begin, next, History-IsConsistent,
}

mark_dirty-IsUnique : (id : Option String) (i : Index) → IsUnique i → IsUnique (mark_dirty id i)
unfolding mark_dirty
mark_dirty-IsUnique none i h = h
mark_dirty-IsUnique (some k) i h =
    (ground (arith, Dict.get-remove k i k, eq_refl k), Dict.remove-IsUnique k i h)

forget-IsUnique : (id : Option String) (i : Index) → IsUnique i → IsUnique (forget id i)
unfolding forget
forget-IsUnique none i h = h
forget-IsUnique (some k) i h = Dict.remove-IsUnique k i h

forget_all-IsUnique :
    (doomed : Row → Bool) (rows : List Row) (i : Index)
    → IsUnique i
    → IsUnique (forget_all doomed rows i)
unfolding forget_all
forget_all-IsUnique doomed [] i h = h
forget_all-IsUnique doomed (r ∷ rest) i h =
    forget_all-IsUnique doomed rest (if doomed r then forget r.id i else i)
      (if_elim IsUnique (doomed r) (λ _. forget-IsUnique r.id i h) (λ _. h))

get-write_batch-none :
    (f : Formats) (events : List Row) (ids : List String) (i : Index) (k : String)
    → Dict.get k i ≡ none
    → Dict.get k (write_batch f events ids i) ≡ none
unfolding Dict.get write_batch
get-write_batch-none f events ids [] k h = refl
get-write_batch-none f events ids ((j, e) ∷ rest) k h =
    ground (arith, get-write_batch-none f events ids rest k)

write_batch-IsUnique :
    (f : Formats) (events : List Row) (ids : List String) (i : Index)
    → IsUnique i
    → IsUnique (write_batch f events ids i)
unfolding write_batch
write_batch-IsUnique f events ids [] h = tt
write_batch-IsUnique f events ids ((j, e) ∷ rest) h =
    (get-write_batch-none f events ids rest j h.0, write_batch-IsUnique f events ids rest h.1)

refresh_loop-IsUnique :
    (f : Formats) (events : List Row) (fuel : ℕ) (i : Index)
    → IsUnique i
    → IsUnique (refresh_loop f events fuel i)
unfolding refresh_loop
refresh_loop-IsUnique f events zero i h = h
refresh_loop-IsUnique f events (suc fuel) i h = elim (List-cases (pending_ids events i)) [
  | inl nothing ↦ simp (refresh_loop, nothing) h
  | inr (p, ps, e) ↦
      simp (refresh_loop, e)
        (refresh_loop-IsUnique f events fuel (write_batch f events (p ∷ take 511 ps) i)
          (write_batch-IsUnique f events (p ∷ take 511 ps) i h))
]

get-new_index-none :
    (f : Formats) (events : List Row) (k : String)
    → find_event k events ≡ none
    → Dict.get k (new_index events) ≡ none
get-new_index-none f events k h = by_entry (Dict.get k (new_index events)) refl
  where
    by_entry : (o : Option TimeEntry) → Dict.get k (new_index events) ≡ o → o ≡ none
    by_entry none e = refl
    by_entry (some x) e = absurd (
        subst (λ o. Agrees f o (some x)) h
          (subst (λ z. Agrees f (find_event k events) z) e (new_index-IsSynced f events k)))

new_index-IsUnique :
    (f : Formats) (events : List Row) → IsKeyed events → IsUnique (new_index events)
unfolding new_index
new_index-IsUnique f [] h = tt
new_index-IsUnique f (r ∷ rest) h = by_id r.id h.0 (new_index-IsUnique f rest h.1)
  where
    by_id :
        (id : Option String)
        → is_taken id rest ≡ false
        → IsUnique (new_index rest)
        → IsUnique (elim id [ none ↦ new_index rest | some k ↦ (k, dirty_entry) ∷ new_index rest ])
    by_id none free u = u
    by_id (some k) free u = (get-new_index-none f rest k (absent (find_event k rest) free), u)
      where
        absent : (o : Option Row) → is_some o ≡ false → o ≡ none
        absent none e = refl
        absent (some r) e = absurd (ground (arith, e))

-- The key of the index, where there is one.
abbrev pub HasKey : Database → Type 0
HasKey db = OnIndex IsUnique db.index

pub refresh_tables-HasKey : (f : Formats) (db : Database) → HasKey db → HasKey (refresh_tables f db)
unfolding refresh_tables
refresh_tables-HasKey f db =
    OnIndex-map IsUnique IsUnique _ db.index
      (λ i. refresh_loop-IsUnique f db.events (suc (length i)) i)

create-HasKey :
    (f : Formats) (db : Database) → IsKeyed db.events → HasKey db → HasKey (create_index db)
create-HasKey f db keyed h = by_index db.index refl
  where
    by_index : (o : Option Index) → db.index ≡ o → HasKey (create_index db)
    by_index none e = simp (e, create_index) (new_index-IsUnique f db.events keyed)
    by_index (some i) e = simp (e, create_index) (subst (OnIndex IsUnique) e h)

insert-HasKey : (r : Row) (db db' : Database) → insert_row r db ≡ some db' → HasKey db → HasKey db'
unfolding insert_row
insert-HasKey r db db' e h =
    subst HasKey (some_injective (guarded (is_taken r.id db.events) e).1)
      (OnIndex-map IsUnique IsUnique _ db.index (mark_dirty-IsUnique r.id) h)

update-HasKey :
    (n : ℕ) (id : Option String) (value : String) (db db' : Database)
    → update_row n id value db ≡ some db'
    → HasKey db
    → HasKey db'
unfolding update_row
update-HasKey n id value db db' e h = by_rest (drop n db.events) e
  where
    by_rest :
        (l : List Row)
        → (elim l [
          | [] ↦ some db
          | r ∷ after ↦ update_between (take n db.events) r after id value db
        ])
          ≡ some db'
        → HasKey db'
    by_rest [] same = subst HasKey (some_injective same) h
    by_rest (r ∷ after) made =
        subst HasKey (some_injective (guarded (is_taken id (take n db.events ++ after)) made).1) (
          OnIndex-map IsUnique IsUnique _ db.index
            (λ i u. mark_dirty-IsUnique id (forget r.id i) (forget-IsUnique r.id i u)) h)

pub Write-HasKey :
    {f : Formats} {a b : Database} → Write f a b → IsConsistent f a → HasKey a → HasKey b
unfolding init_timestamp_index delete_rows replace_row
Write-HasKey {f} {a} (inserted r {db'} e) c h = insert-HasKey r a db' e h
Write-HasKey {f} {a} (deleted doomed) c h =
    OnIndex-map IsUnique IsUnique _ a.index (forget_all-IsUnique doomed a.events) h
Write-HasKey {f} {a} (updated n id value {db'} e) c h = update-HasKey n id value a db' e h
Write-HasKey {f} {a} (replaced r) c h =
    OnIndex-map IsUnique IsUnique _ a.index (mark_dirty-IsUnique r.id) h
Write-HasKey {f} {a} opened c h =
    refresh_tables-HasKey f (create_index a) (create-HasKey f a c.keyed h)
Write-HasKey {f} {a} refreshed c h = refresh_tables-HasKey f a h

pub History-HasKey :
    {f : Formats} {a b : Database} → IsConsistent f a → HasKey a → History f a b → HasKey b
History-HasKey c h begin = h
History-HasKey c h (next past w) =
    Write-HasKey w (History-IsConsistent c past) (History-HasKey c h past)
