-- ===== src/Storage/Files/Insertion.antt =====
-- What `insert` of src/dbus_event_log/storage.py promises.
use dbus_event_log.Prelude.{
  Bool, if◌then◌else◌, ℕ, ◌≡◌, refl, ap, sym, ◌∙◌, String, true, false, Option, none, some, [], ◌∷◌,
  ◌++◌, is_some, arith, inl, inr, Option-cases, guarded, some_injective, subst, string_eq,
}
use text.Mathlib.TextPositions.{eq_refl}
use dbus_event_log.Event.{DBusEvent}
use dbus_event_log.Storage.Time.{Formats}
use dbus_event_log.Storage.Tables.{
  Row, Database, row_of, find_event, is_taken, insert_row, insert_rows,
}
use dbus_event_log.Storage.Refresh.{refresh, refresh_tables}
use dbus_event_log.Storage.Synced.{find_event-append}
use dbus_event_log.Storage.Files.{
  Active, missing, blank, present, Files, Result, ok, err, RotationEnv, rotate, after_rotation,
  commit_rows, committed, stored_tables, insert, rows_of,
}

-- A row is stored under its id in the active database, where the id was free; all rows that were
-- there and all archives stay.
pub record Stored (k : String) (r : Row) (before after : Files) : Type 0 where
  pub old : Database
  pub new : Database
  pub was : before.active ≡ present old
  pub now : after.active ≡ present new
  pub was_free : is_some (find_event k old.events) ≡ false
  pub stored : find_event k new.events ≡ some r
  pub others :
      (j : String)
      → is_some (find_event j old.events) ≡ true
      → find_event j new.events ≡ find_event j old.events
  pub archives : after.archives ≡ before.archives

inserted_rows :
    (r : Row) (db db' : Database)
    → insert_rows (r ∷ []) db ≡ some db'
    → (is_taken r.id db.events ≡ false) × (db'.events ≡ db.events ++ r ∷ [])
unfolding insert_rows insert_row
inserted_rows r db db' e = elim (Option-cases (insert_row r db)) [
  | inl fails ↦ absurd (ground (arith, fails, e))
  | inr (x, works) ↦
      let taken = guarded (is_taken r.id db.events) works in
      let same : x ≡ db' = ground (arith, works, e) in
      (
        taken.0,
        ap (λ (d : Database). d.events) (sym same)
            ∙ ap (λ (d : Database). d.events) (sym (some_injective taken.1)),
      )
]

committed-Stored :
    (f : Formats) (k : String) (r : Row) (s : Files) (db : Database) (o : Option Database)
    → s.active ≡ present db
    → r.id ≡ some k
    → insert_rows (r ∷ []) db ≡ o
    → (committed f s o).0 ≡ ok tt
    → Stored k r s (committed f s o).1
unfolding refresh refresh_tables
committed-Stored f k r s db none was id i e = absurd (ground (arith, e))
committed-Stored f k r s db (some db') was id i e = by_index (is_some db'.index) refl e
  where
    kept_rows : Stored k r s (record s { active = present (refresh_tables f db') })
    kept_rows =
        let row = inserted_rows r db db' i in
        let free : is_some (find_event k db.events) ≡ false =
          subst (λ o. is_taken o db.events ≡ false) id row.0 in
        let found : (j : String) → find_event j db'.events ≡ find_event j (db.events ++ r ∷ []) =
          λ j. ap (find_event j) row.1 in
        record {
          old = db;
          new = refresh_tables f db';
          was = was;
          now = refl;
          was_free = free;
          stored = found k ∙ find_event-append k db.events r ∙ rw (free, id, eq_refl k) refl;
          others = λ j h. found j ∙ find_event-append j db.events r ∙ rw h refl;
          archives = refl;
        }

    by_index :
        (b : Bool)
        → is_some db'.index ≡ b
        → (stored_tables s (if b then some (refresh_tables f db') else none)).0 ≡ ok tt
        → Stored k r s (stored_tables s (if b then some (refresh_tables f db') else none)).1
    by_index true there h = kept_rows
    by_index false gone h = absurd (ground (arith, h))

commit-Stored :
    (f : Formats) (k : String) (r : Row) (s : Files) (a : Active)
    → r.id ≡ some k
    → (commit_rows f (r ∷ []) (record s { active = a })).0 ≡ ok tt
    → Stored k r (record s { active = a }) (commit_rows f (r ∷ []) (record s { active = a })).1
unfolding commit_rows
commit-Stored f k r s missing id e = absurd (ground (arith, e))
commit-Stored f k r s blank id e = absurd (ground (arith, e))
commit-Stored f k r s (present db) id e =
    committed-Stored f k r (record s { active = present db }) db (insert_rows (r ∷ []) db) refl id
      refl e

after_rotation_ok :
    (x : Result (Option ℕ) × Files) (rest : Files → Result (Unit {0}) × Files)
    → (after_rotation x rest).0 ≡ ok tt
    → after_rotation x rest ≡ rest x.1
after_rotation_ok (ok o, s) rest e = refl
after_rotation_ok (err x, s) rest e = absurd (ground (arith, e))

-- An insert that returns has stored the row of the event under the event's id in the active
-- database that the rotation before it left, where that id was free; all rows of that database and
-- all archives that the rotation left stay.
pub insert-Stored :
    (f : Formats) (env : RotationEnv) (e : DBusEvent) (s : Files)
    → (insert f env e s).0 ≡ ok tt
    → Stored (f.uuid_text e.id) (row_of f e) (rotate f env s).1 (insert f env e s).1
unfolding insert row_of
insert-Stored f env e s returned =
    let same = after_rotation_ok (rotate f env s) (commit_rows f (rows_of f (e ∷ []))) returned in
    let s' = (rotate f env s).1 in
    subst (λ x. Stored (f.uuid_text e.id) (row_of f e) s' x.1) (sym same)
      (commit-Stored f (f.uuid_text e.id) (row_of f e) s' s'.active refl
        (ap (λ x. x.0) (sym same) ∙ returned))
