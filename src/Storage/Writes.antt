-- ===== src/Storage/Writes.antt =====
-- Histories of writes to the database of src/dbus_event_log/storage.py, by this program or any
-- other.
use dbus_event_log.Prelude.{
  ℕ, suc, ap, ◌∙◌, if◌then◌else◌, List, take, drop, take-append-drop, guarded, some_injective, sym,
  ◌≡◌, refl, inl, inr, String, Bool, Option, none, some, [], ◌∷◌, ◌++◌, string_eq, is_some, arith,
  Bool-cases, length, subst,
}
use mathlib.Core.Option
use dbus_event_log.Dict
use dbus_event_log.Storage.Time.{Formats}
use dbus_event_log.Storage.Tables.{
  Row, Index, Database, find_event, mark_dirty, is_taken, insert_row, update_row, update_between,
  restamped, replace_row, has_id, kept, delete_rows,
}
use dbus_event_log.Storage.Refresh.{create_index, refresh, refresh_tables, init_timestamp_index}
use dbus_event_log.Storage.Index.{
  IsSynced, recomputed, refresh_tables-recomputed, refresh_loop-IsSynced,
}
use dbus_event_log.Storage.Synced.{
  IsKeyed, insert-IsSynced, delete-IsSynced, update-IsSynced, replace-IsSynced, replaced_free,
  new_index-IsSynced,
}
use dbus_event_log.Storage.PrimaryKey.{append-IsKeyed, kept-IsKeyed, middle-IsKeyed, insert-IsKeyed}

abbrev pub OnIndex : (Index → Type 0) → Option Index → Type 0
OnIndex P none = Unit {0}
OnIndex P (some i) = P i

pub OnIndex-map :
    (P Q : Index → Type 0) (g : Index → Index) (o : Option Index)
    → ((i : Index) → P i → Q (g i))
    → OnIndex P o
    → OnIndex Q (Option.map g o)
OnIndex-map P Q g none keep h = tt
OnIndex-map P Q g (some i) keep h = keep i h

-- The ids are a primary key, and the index, where there is one, is synchronised.
pub record IsConsistent (f : Formats) (db : Database) : Type 0 where
  pub keyed : IsKeyed db.events
  pub synced : OnIndex (IsSynced f db.events) db.index

-- What a writer may do to the tables: this program inserts and deletes; others also change ids and
-- timestamps and replace rows; opening the database creates the index, and queries refresh it.
pub data Write (f : Formats) (db : Database) : Database → Type 0 where
  inserted : (r : Row) {db' : Database} → insert_row r db ≡ some db' → Write f db db'
  deleted : (doomed : Row → Bool) → Write f db (delete_rows doomed db)
  updated :
      (n : ℕ) (id : Option String) (value : String) {db' : Database}
      → update_row n id value db ≡ some db'
      → Write f db db'
  replaced : (r : Row) → Write f db (replace_row r db)
  opened : Write f db (init_timestamp_index f db)
  refreshed : Write f db (refresh_tables f db)

pub data History (f : Formats) (start : Database) : Database → Type 0 where
  begin : History f start start
  next : {a b : Database} → History f start a → Write f a b → History f start b

refresh_tables-IsConsistent :
    (f : Formats) (db : Database) → IsConsistent f db → IsConsistent f (refresh_tables f db)
unfolding refresh_tables
refresh_tables-IsConsistent f db h = record {
  keyed = h.keyed;
  synced =
      OnIndex-map (IsSynced f db.events) (IsSynced f db.events) _ db.index
        (λ i. refresh_loop-IsSynced f db.events (suc (length i)) i) h.synced;
}

create-IsConsistent :
    (f : Formats) (db : Database) → IsConsistent f db → IsConsistent f (create_index db)
create-IsConsistent f db h = by_index db.index refl
  where
    by_index : (o : Option Index) → db.index ≡ o → IsConsistent f (create_index db)
    by_index none e =
        simp (e, create_index) (record { keyed = h.keyed; synced = new_index-IsSynced f db.events })
    by_index (some i) e = simp (e, create_index) h

insert-IsConsistent :
    (f : Formats) (r : Row) (db db' : Database)
    → insert_row r db ≡ some db'
    → IsConsistent f db
    → IsConsistent f db'
unfolding insert_row
insert-IsConsistent f r db db' e h = elim (Bool-cases (is_taken r.id db.events)) [
  | inl taken ↦ absurd (ground arith)
  | inr free ↦
      let after : Database = record {
        version = db.version;
        events = db.events ++ r ∷ [];
        index = Option.map (mark_dirty r.id) db.index;
      } in
      let e' : after ≡ db' = ground arith in
      rw (← e') (record {
        keyed = append-IsKeyed r db.events free h.keyed;
        synced =
            OnIndex-map (IsSynced f db.events) (IsSynced f (db.events ++ r ∷ [])) _ db.index
              (λ i. insert-IsSynced f r db.events i free) h.synced;
      })
]

between-IsConsistent :
    (f : Formats) (before after : List Row) (r : Row) (id : Option String) (value : String)
    (db db' : Database)
    → update_between before r after id value db ≡ some db'
    → db.events ≡ before ++ r ∷ after
    → IsConsistent f db
    → IsConsistent f db'
between-IsConsistent f before after r id value db db' e split h =
    let (free, made) = guarded (is_taken id (before ++ after)) e in
    let others = middle-IsKeyed before after r (subst IsKeyed split h.keyed) in
    subst (IsConsistent f) (some_injective made) (record {
      keyed = insert-IsKeyed before after (restamped id value r) others.0 free;
      synced =
          OnIndex-map (IsSynced f (before ++ r ∷ after))
            (IsSynced f (before ++ restamped id value r ∷ after)) _ db.index
            (λ i. update-IsSynced f before after r id value i others.1 free)
            (subst (λ (l : List Row). OnIndex (IsSynced f l) db.index) split h.synced);
    })

update-IsConsistent :
    (f : Formats) (n : ℕ) (id : Option String) (value : String) (db db' : Database)
    → update_row n id value db ≡ some db'
    → IsConsistent f db
    → IsConsistent f db'
unfolding update_row
update-IsConsistent f n id value db db' e h =
    by_rest (drop n db.events) e (sym (take-append-drop n db.events))
  where
    by_rest :
        (l : List Row)
        → (elim l [
          | [] ↦ some db
          | r ∷ after ↦ update_between (take n db.events) r after id value db
        ])
          ≡ some db'
        → db.events ≡ take n db.events ++ l
        → IsConsistent f db'
    by_rest [] same split = subst (IsConsistent f) (some_injective same) h
    by_rest (r ∷ after) made split =
        between-IsConsistent f (take n db.events) after r id value db db' made split h

replace-IsConsistent :
    (f : Formats) (r : Row) (db : Database) → IsConsistent f db → IsConsistent f (replace_row r db)
unfolding replace_row
replace-IsConsistent f r db h =
    let free = replaced_free r.id db.events h.keyed in
    record {
      keyed =
          append-IsKeyed r (kept (has_id r.id) db.events) free
            (kept-IsKeyed (has_id r.id) db.events h.keyed);
      synced =
          OnIndex-map (IsSynced f db.events) (IsSynced f (kept (has_id r.id) db.events ++ r ∷ [])) _
            db.index (λ i. replace-IsSynced f r db.events i h.keyed free) h.synced;
    }

delete-IsConsistent :
    (f : Formats) (doomed : Row → Bool) (db : Database)
    → IsConsistent f db
    → IsConsistent f (delete_rows doomed db)
unfolding delete_rows
delete-IsConsistent f doomed db h = record {
  keyed = kept-IsKeyed doomed db.events h.keyed;
  synced =
      OnIndex-map (IsSynced f db.events) (IsSynced f (kept doomed db.events)) _ db.index
        (λ i. delete-IsSynced f doomed db.events i h.keyed) h.synced;
}

pub Write-IsConsistent :
    {f : Formats} {a b : Database} → Write f a b → IsConsistent f a → IsConsistent f b
unfolding init_timestamp_index
Write-IsConsistent {f} {a} (inserted r {db'} e) h = insert-IsConsistent f r a db' e h
Write-IsConsistent {f} {a} (deleted doomed) h = delete-IsConsistent f doomed a h
Write-IsConsistent {f} {a} (updated n id value {db'} e) h =
    update-IsConsistent f n id value a db' e h
Write-IsConsistent {f} {a} (replaced r) h = replace-IsConsistent f r a h
Write-IsConsistent {f} {a} opened h =
    refresh_tables-IsConsistent f (create_index a) (create-IsConsistent f a h)
Write-IsConsistent {f} {a} refreshed h = refresh_tables-IsConsistent f a h

pub History-IsConsistent :
    {f : Formats} {a b : Database} → IsConsistent f a → History f a b → IsConsistent f b
History-IsConsistent h begin = h
History-IsConsistent h (next past w) = Write-IsConsistent w (History-IsConsistent h past)

-- After any history of inserts, deletes, foreign changes of ids and timestamps, replacements,
-- openings and refreshes of a consistent database that has an index, refreshing works and gives
-- the same events with an index that is exactly what recomputing it from the events would give:
-- for every id the instant of its event, clean, and nothing where there is no event.
pub refresh_always_recomputes :
    (f : Formats) (start db : Database) (index : Index) (k : String)
    → IsConsistent f start
    → History f start db
    → db.index ≡ some index
    → (after : Index) × (refresh f db ≡ some (record db { index = some after }))
      × (Dict.get k after ≡ recomputed f (find_event k db.events))
unfolding refresh refresh_tables
refresh_always_recomputes f start db index k h past e =
    let synced = (History-IsConsistent h past).synced in
    let r =
      refresh_tables-recomputed f db index k e (subst (OnIndex (IsSynced f db.events)) e synced) in
    (
      r.0,
      ap (λ b. if b then some (refresh_tables f db) else none) (ap is_some e)
          ∙ ap (λ o. some (record db { index = o })) r.1,
      r.2,
    )
