-- ===== src/Storage/Query/Results.antt =====
-- What `query` and `count` of src/dbus_event_log/storage.py return.
use dbus_event_log.Prelude.{
  ◌≡◌, refl, sym, ap, subst, ◌∙◌, Bool, true, false, some, List, [], ◌∷◌, is_some, length, if_elim,
  Option-cases, inl, inr, arith, ◌||◌,
}
use dbus_event_log.Event.{pos, negsuc}
use dbus_event_log.Storage.Time.{Formats}
use dbus_event_log.Storage.Tables.{Row, Index, Database}
use dbus_event_log.Storage.Refresh.{refresh_tables, prepare_timestamp_query, has_null_id}
use dbus_event_log.Storage.Writes.{History}
use dbus_event_log.Storage.Files.{present, Files, Result, ok, new_database}
use dbus_event_log.Storage.Files.Retention.{active_rows}
use dbus_event_log.Storage.Query.{
  Sqlite, IsOrder, Filters, Bounds, Hit, comes_before, selects, selected, sorted, window,
  rows_of_hits, read_rows, scanned_hits, indexed_hits, source, result_of, read_present, read_active,
  query, query_within, count, count_within, bounds_of,
}
use dbus_event_log.Storage.Query.Sorting.{
  Reordered, sorted-Reordered, selected-Reordered, length-Reordered, length-sorted,
}
use dbus_event_log.Storage.Query.Sources.{comes_before-IsTransitive, sources-Reordered}
use dbus_event_log.Storage.Query.Readable.{IsReadable, History-IsReadable, refreshed_index}

-- A reading gives what reading a scan gives, and leaves the events alone.
record IsScan {ℓ} {A : Type ℓ} (f : Formats) (read : List Hit → A) (db : Database)
    (r : Result A × Files) : Type ℓ where
  result : r.0 ≡ ok (read (scanned_hits f db.events))
  events : active_rows r.1.active ≡ db.events

source-indexed :
    (f : Formats) (db : Database) (i : Index)
    → db.index ≡ some i
    → source f true db ≡ ok (indexed_hits db.events i)
unfolding source
source-indexed f db i e = rw e refl

module _ {ℓ} {A : Type ℓ} (f : Formats) (s : Sqlite) (read : List Hit → A) (files : Files)
    (db : Database) (o : IsOrder s) (h : IsReadable f db)
    (same : (m l : List Hit) → Reordered (comes_before s) m l → read m ≡ read l) where
  indexed_source :
      has_null_id db.events ≡ false
      → result_of read (source f true (refresh_tables f db)) ≡ ok (read (scanned_hits f db.events))
  unfolding refresh_tables
  indexed_source no_null = elim (Option-cases db.index) [
    | inl none_there ↦ absurd (ground (arith, ap is_some none_there, h.indexed))
    | inr (i, there) ↦
        let fresh = refreshed_index f db i there h in
        ap (result_of read) (source-indexed f (refresh_tables f db) fresh.0 fresh.1)
        ∙ ap ok (
            same (indexed_hits db.events fresh.0) (scanned_hits f db.events) (
              sources-Reordered s o f db.events fresh.0 no_null h.consistent.keyed fresh.3 fresh.2))
  ]

  read_present-IsScan : (timed : Bool) → IsScan f read db (read_present f timed read files db)
  unfolding prepare_timestamp_query source refresh_tables
  read_present-IsScan false = record { result = refl; events = refl }
  read_present-IsScan true =
      if_elim
        (λ (p : Database × Bool).
          IsScan f read db
            (result_of read (source f p.1 p.0), record files { active = present p.0 }))
        (has_null_id db.events) (λ _. record { result = refl; events = refl })
        (λ no_null. record { result = indexed_source no_null; events = refl })

read_rows-Reordered :
    (s : Sqlite) (b : Bounds) (q : Filters)
    → IsOrder s
    → (m l : List Hit) → Reordered (comes_before s) m l
    → read_rows s b q m ≡ read_rows s b q l
unfolding read_rows
read_rows-Reordered s b q o m l r =
    ap (λ hits. rows_of_hits (window q.limit q.offset hits))
      (sorted-Reordered (comes_before s) (comes_before-IsTransitive s o)
        (selected-Reordered (comes_before s) (selects s b q) r))

count-Reordered :
    (s : Sqlite) (b : Bounds) (q : Filters) (m l : List Hit)
    → Reordered (comes_before s) m l
    → length (selected (selects s b q) m) ≡ length (selected (selects s b q) l)
count-Reordered s b q m l r =
    length-Reordered (comes_before s) (selected-Reordered (comes_before s) (selects s b q) r)

-- `query` on a database that the program created, after any history of writes by it or by others,
-- returns what a plain scan of the events gives: the rows that the filters select, the latest first,
-- cut to the window, whether it reads through the time index or not; and it changes no event. The
-- hypotheses: the order of texts is a strict total order, and the bounds of the filters are valid.
pub query-scan :
    (f : Formats) (s : Sqlite) (q : Filters) (b : Bounds) (files : Files) (db : Database)
    → IsOrder s
    → History f (new_database f) db
    → files.active ≡ present db
    → bounds_of f q ≡ ok b
    → ((query f s q files).0 ≡ ok (read_rows s b q (scanned_hits f db.events)))
      × (active_rows (query f s q files).1.active ≡ db.events)
unfolding query
query-scan f s q b files db o past active valid =
    let scan =
      read_present-IsScan f s (read_rows s b q) files db o (History-IsReadable past)
        (read_rows-Reordered s b q o) true in
    subst
      (λ r.
        ((query_within f s q files r).0 ≡ ok (read_rows s b q (scanned_hits f db.events)))
        × (active_rows (query_within f s q files r).1.active ≡ db.events))
      (sym valid)
      (subst
        (λ a.
          ((read_active f true (read_rows s b q) files a).0
            ≡ ok (read_rows s b q (scanned_hits f db.events)))
          × (active_rows (read_active f true (read_rows s b q) files a).1.active ≡ db.events))
        (sym active) ((scan.result, scan.events)))

count_scan :
    (f : Formats) (s : Sqlite) (q : Filters) (b : Bounds) (files : Files) (db : Database)
    → IsOrder s
    → History f (new_database f) db
    → files.active ≡ present db
    → bounds_of f q ≡ ok b
    → (count f s q files).0 ≡ ok (length (selected (selects s b q) (scanned_hits f db.events)))
unfolding count
count_scan f s q b files db o past active valid =
    let timed = is_some b.start || is_some b.end_ in
    let total = λ (hits : List Hit). length (selected (selects s b q) hits) in
    let scan =
      read_present-IsScan f s total files db o (History-IsReadable past) (count-Reordered s b q)
        timed in
    subst (λ r. (count_within f s q files r).0 ≡ ok (total (scanned_hits f db.events))) (sym valid)
      (subst (λ a. (read_active f timed total files a).0 ≡ ok (total (scanned_hits f db.events)))
        (sym active) scan.result)

pub length-rows_of_hits : (hits : List Hit) → length (rows_of_hits hits) ≡ length hits
unfolding rows_of_hits
length-rows_of_hits [] = refl
length-rows_of_hits (h ∷ rest) = omega (arith, length-rows_of_hits rest)

-- The same filters without a window.
abbrev pub unlimited : Filters → Filters
unlimited q = record q { limit = negsuc 0; offset = pos 0 }

-- `count` is the number of rows that `query` returns for the same filters without limit and offset,
-- under the hypotheses of a query: also where the count reads neither the index nor refreshes it.
pub count-query :
    (f : Formats) (s : Sqlite) (q : Filters) (b : Bounds) (files : Files) (db : Database)
    → IsOrder s
    → History f (new_database f) db
    → files.active ≡ present db
    → bounds_of f q ≡ ok b
    → (rows : List Row) × ((query f s (unlimited q) files).0 ≡ ok rows)
      × ((count f s q files).0 ≡ ok (length rows))
unfolding read_rows selects
count-query f s q b files db o past active valid =
    let hits = selected (selects s b q) (scanned_hits f db.events) in
    (
      read_rows s b (unlimited q) (scanned_hits f db.events),
      (query-scan f s (unlimited q) b files db o past active valid).0,
      count_scan f s q b files db o past active valid
          ∙ ap ok (
              sym (
                length-rows_of_hits (sorted (comes_before s) hits)
                ∙ length-sorted (comes_before s) hits)),
    )
