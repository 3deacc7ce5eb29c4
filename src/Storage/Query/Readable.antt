-- ===== src/Storage/Query/Readable.antt =====
-- Databases that src/dbus_event_log/storage.py created, whatever was written to them since.
use mathlib.Core.Option
use dbus_event_log.Prelude.{
  ℕ, List, ◌++◌, take, drop, ◌≡◌, refl, sym, ap, subst, ◌∙◌, String, true, Option, none, some, [],
  ◌∷◌, is_some, string_eq, some_injective, guarded,
}
use dbus_event_log.Dict
use dbus_event_log.Dict.{IsUnique}
use dbus_event_log.Storage.Time.{Formats}
use dbus_event_log.Storage.Tables.{
  Index, Database, find_event, insert_row, delete_rows, update_row, update_between, replace_row,
  forget, Row, is_taken, mark_dirty, forget_all,
}
use dbus_event_log.Storage.Refresh.{refresh_tables, create_index, init_timestamp_index}
use dbus_event_log.Storage.Index.{recomputed, IsSynced, refresh_tables-recomputed}
use dbus_event_log.Storage.Writes.{
  OnIndex, IsConsistent, Write, inserted, deleted, updated, replaced, opened, refreshed, History,
  begin, next, Write-IsConsistent,
}
use dbus_event_log.Storage.UniqueKeys.{HasKey, Write-HasKey, refresh_tables-HasKey}
use dbus_event_log.Storage.Files.{new_database, init_schema, empty_database}

-- What reading through the index needs.
pub record IsReadable (f : Formats) (db : Database) : Type 0 where
  pub consistent : IsConsistent f db
  pub keyed : HasKey db
  pub indexed : is_some db.index ≡ true

is_some-map {ℓ} : {A B : Type ℓ} (g : A → B) (o : Option A) → is_some (Option.map g o) ≡ is_some o
is_some-map g none = refl
is_some-map g (some a) = refl

create_index-indexed : (db : Database) → is_some (create_index db).index ≡ true
create_index-indexed db = by_index db.index refl
  where
    by_index : (o : Option Index) → db.index ≡ o → is_some (create_index db).index ≡ true
    by_index none e = simp (e, create_index) refl
    by_index (some i) e = simp (e, create_index) refl

refresh_tables-indexed :
    (f : Formats) (db : Database)
    → is_some db.index ≡ true
    → is_some (refresh_tables f db).index ≡ true
unfolding refresh_tables
refresh_tables-indexed f db h = is_some-map _ db.index ∙ h

update-indexed :
    (n : ℕ) (id : Option String) (value : String) (db db' : Database)
    → update_row n id value db ≡ some db'
    → is_some db.index ≡ true
    → is_some db'.index ≡ true
unfolding update_row
update-indexed n id value db db' e h = by_rest (drop n db.events) e
  where
    by_rest :
        (l : List Row)
        → (elim l [
          | [] ↦ some db
          | r ∷ after ↦ update_between (take n db.events) r after id value db
        ])
          ≡ some db'
        → is_some db'.index ≡ true
    by_rest [] same = ap (λ (d : Database). is_some d.index) (sym (some_injective same)) ∙ h
    by_rest (r ∷ after) made =
        ap (λ (d : Database). is_some d.index)
          (sym (some_injective (guarded (is_taken id (take n db.events ++ after)) made).1))
        ∙ is_some-map (λ i. mark_dirty id (forget r.id i)) db.index
        ∙ h

Write-indexed :
    {f : Formats} {a b : Database} → Write f a b → is_some a.index ≡ true → is_some b.index ≡ true
unfolding insert_row delete_rows replace_row init_timestamp_index
Write-indexed {f} {a} (inserted r {db'} e) h =
    ap (λ (d : Database). is_some d.index)
      (sym (some_injective (guarded (is_taken r.id a.events) e).1))
    ∙ is_some-map (mark_dirty r.id) a.index
    ∙ h
Write-indexed {f} {a} (deleted doomed) h = is_some-map (forget_all doomed a.events) a.index ∙ h
Write-indexed {f} {a} (updated n id value {db'} e) h = update-indexed n id value a db' e h
Write-indexed {f} {a} (replaced r) h = is_some-map (mark_dirty r.id) a.index ∙ h
Write-indexed {f} {a} opened h = refresh_tables-indexed f (create_index a) (create_index-indexed a)
Write-indexed {f} {a} refreshed h = refresh_tables-indexed f a h

Write-IsReadable : {f : Formats} {a b : Database} → Write f a b → IsReadable f a → IsReadable f b
Write-IsReadable w h = record {
  consistent = Write-IsConsistent w h.consistent;
  keyed = Write-HasKey w h.consistent h.keyed;
  indexed = Write-indexed w h.indexed;
}

new_database-IsReadable : (f : Formats) → IsReadable f (new_database f)
unfolding init_schema init_timestamp_index
new_database-IsReadable f =
    let bare : Database = record empty_database { version = 2 ∷ [] } in
    let c : IsConsistent f bare = record { keyed = tt; synced = tt } in
    let w : Write f bare (init_timestamp_index f bare) = opened in
    record {
      consistent = Write-IsConsistent w c;
      keyed = Write-HasKey w c tt;
      indexed = refresh_tables-indexed f (create_index bare) refl;
    }

-- Every database that was created by the program, after any history of writes.
pub History-IsReadable :
    {f : Formats} {db : Database} → History f (new_database f) db → IsReadable f db
History-IsReadable {f} begin = new_database-IsReadable f
History-IsReadable (next past w) = Write-IsReadable w (History-IsReadable past)

-- A refreshed index as one that recomputing gives.
pub refreshed_index :
    (f : Formats) (db : Database) (i : Index)
    → db.index ≡ some i
    → IsReadable f db
    → (after : Index) × ((refresh_tables f db).index ≡ some after)
      × ((k : String) → Dict.get k after ≡ recomputed f (find_event k db.events))
      × IsUnique after
refreshed_index f db i e h =
    let synced = subst (OnIndex (IsSynced f db.events)) e h.consistent.synced in
    let first = refresh_tables-recomputed f db i "" e synced in
    (
      first.0,
      first.1,
      λ k.
          let one = refresh_tables-recomputed f db i k e synced in
          ap (λ (x : Index). Dict.get k x) (some_injective (sym first.1 ∙ one.1)) ∙ one.2,
      subst (OnIndex IsUnique) first.1 (refresh_tables-HasKey f db h.keyed),
    )
