-- ===== src/Storage/Distinct.antt =====
-- `get_services` and `get_event_types` of src/dbus_event_log/storage.py.
use dbus_event_log.Prelude.{
  ◌≡◌, refl, ap, ◌∙◌, String, true, ◌||◌, List, [], ◌∷◌, All, All-map, any, str_eq, eq_iff,
  if◌then◌else◌, Bool-cases, inl, inr, arith,
}
use dbus_event_log.Storage.Tables.{Row, Database}
use dbus_event_log.Storage.Files.{
  Active, missing, blank, present, Files, Result, ok, err, no_such_table,
}
use dbus_event_log.Storage.Query.{Sqlite, IsOrder}

-- `DISTINCT … ORDER BY` of one text.
unfoldable pub insert_distinct : Sqlite → String → List String → List String
insert_distinct s x [] = x ∷ []
insert_distinct s x (y ∷ l) =
    let later = insert_distinct s x l in
    if s.precedes x y then x ∷ y ∷ l else if s.precedes y x then y ∷ later else y ∷ l

unfoldable pub distinct : Sqlite → List String → List String
unfolding insert_distinct
distinct s [] = []
distinct s (x ∷ l) = insert_distinct s x (distinct s l)

abbrev pub services_of : List Row → List String
services_of [] = []
services_of (r ∷ rest) = r.service_name ∷ services_of rest

abbrev pub event_types_of : List Row → List String
event_types_of [] = []
event_types_of (r ∷ rest) = r.event_type ∷ event_types_of rest

abbrev pub column :
    Sqlite → (List Row → List String) → Files → Active → Result (List String) × Files
column s values files missing = (err no_such_table, record files { active = blank })
column s values files blank = (err no_such_table, files)
column s values files (present db) = (ok (distinct s (values db.events)), files)

-- `get_services`
unfoldable pub get_services : Sqlite → Files → Result (List String) × Files
get_services s files = column s services_of files files.active

-- `get_event_types`
unfoldable pub get_event_types : Sqlite → Files → Result (List String) × Files
get_event_types s files = column s event_types_of files files.active

-- Strictly ascending, so without repetition.
abbrev pub IsAscending : Sqlite → List String → Type 0
IsAscending s [] = Unit {0}
IsAscending s (x ∷ l) = All (λ y. s.precedes x y ≡ true) l × IsAscending s l

insert_distinct-All :
    (s : Sqlite) (z x : String) (l : List String)
    → s.precedes z x ≡ true
    → All (λ y. s.precedes z y ≡ true) l
    → All (λ y. s.precedes z y ≡ true) (insert_distinct s x l)
unfolding insert_distinct
insert_distinct-All s z x [] h all = (h, tt)
insert_distinct-All s z x (y ∷ l) h all = elim (Bool-cases (s.precedes x y)) [
  | inl first ↦ rw first ((h, all))
  | inr later ↦ elim (Bool-cases (s.precedes y x)) [
    | inl after ↦ rw (later, after) ((all.0, insert_distinct-All s z x l h all.1))
    | inr same ↦ rw (later, same) all
  ]
]

insert_distinct-IsAscending :
    (s : Sqlite) (x : String) (l : List String)
    → IsOrder s
    → IsAscending s l
    → IsAscending s (insert_distinct s x l)
unfolding insert_distinct
insert_distinct-IsAscending s x [] o h = (tt, tt)
insert_distinct-IsAscending s x (y ∷ l) o h = elim (Bool-cases (s.precedes x y)) [
  | inl first ↦ rw first (((first, All-map l (λ z p. o.transitive x y z first p) h.0), h))
  | inr later ↦ elim (Bool-cases (s.precedes y x)) [
    | inl after ↦
        rw (later, after)
          ((insert_distinct-All s y x l after h.0, insert_distinct-IsAscending s x l o h.1))
    | inr same ↦ rw (later, same) h
  ]
]

distinct-IsAscending : (s : Sqlite) (l : List String) → IsOrder s → IsAscending s (distinct s l)
unfolding distinct
distinct-IsAscending s [] o = tt
distinct-IsAscending s (x ∷ l) o =
    insert_distinct-IsAscending s x (distinct s l) o (distinct-IsAscending s l o)

any-insert_distinct :
    (s : Sqlite) (x k : String) (l : List String)
    → IsOrder s
    → any (str_eq k) (insert_distinct s x l) ≡ (str_eq k x || any (str_eq k) l)
unfolding insert_distinct
any-insert_distinct s x k [] o = refl
any-insert_distinct s x k (y ∷ l) o =
    ground (arith, o.connected x y, any-insert_distinct s x k l o, eq_iff k x, eq_iff k y)

any-distinct :
    (s : Sqlite) (k : String) (l : List String)
    → IsOrder s
    → any (str_eq k) (distinct s l) ≡ any (str_eq k) l
unfolding distinct
any-distinct s k [] o = refl
any-distinct s k (x ∷ l) o =
    any-insert_distinct s x k (distinct s l) o ∙ ap (λ b. str_eq k x || b) (any-distinct s k l o)

-- `get_services` of a store with an active database gives the names of the services in strictly
-- ascending order, and a name is given exactly if an event has it. The hypothesis: the order of
-- texts is a strict total order.
pub get_services-distinct :
    (s : Sqlite) (files : Files) (db : Database)
    → IsOrder s
    → files.active ≡ present db
    → (names : List String) × ((get_services s files).0 ≡ ok names)
      × IsAscending s names
      × ((name : String) → any (str_eq name) names ≡ any (str_eq name) (services_of db.events))
unfolding get_services
get_services-distinct s files db o active =
    let names = services_of db.events in
    (
      distinct s names,
      ap (λ (a : Active). (column s services_of files a).0) active,
      distinct-IsAscending s names o,
      λ name. any-distinct s name names o,
    )
