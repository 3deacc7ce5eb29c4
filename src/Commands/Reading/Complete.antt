-- ===== src/Commands/Reading/Complete.antt =====
-- When an export of src/dbus_event_log/cli.py holds all the events that were asked for.
use dbus_event_log.Prelude.{
  ℕ, zero, suc, ◌≤◌, ◌≡◌, refl, ap, sym, ◌∙◌, String, true, Option, List, [], ◌∷◌, length, take,
  arith,
}
use dbus_event_log.Event.{pos}
use dbus_event_log.Storage.Time.{Formats}
use dbus_event_log.Storage.Tables.{Row, Database}
use dbus_event_log.Storage.Writes.{History}
use dbus_event_log.Storage.Files.{
  ok as stored_ok, Result as StorageResult, Files, present, new_database,
}
use dbus_event_log.Storage.Query.{
  Sqlite, IsOrder, Filters, Bounds, bounds_of, count, query, read_rows, rows_of_hits, sorted,
  comes_before, selected, selects, scanned_hits,
}
use dbus_event_log.Storage.Query.Results.{query-scan, count-query, unlimited, length-rows_of_hits}
use dbus_event_log.Commands.{Result, ok, of_storage}
use dbus_event_log.Commands.Times.{TimeLib, parse_option}
use dbus_event_log.Commands.Reading.{
  ExportOptions, export_query, export_limit, export, written, json_file, filters_from, filters_of,
  query_files, query_sqlite,
}

-- The filters of an export with these parsed bounds.
abbrev pub export_filters : ExportOptions → Option String → Option String → Filters
export_filters o start end_ = record {
  start_time = start;
  end_time = end_;
  service = o.service;
  event_type = o.event_type;
  limit = pos export_limit;
  offset = pos 0;
}

take-all {ℓ} : {A : Type ℓ} (n : ℕ) (l : List A) → length l ≤ n → take n l ≡ l
take-all zero [] h = refl
take-all zero (x ∷ l) h = absurd (omega (arith, h))
take-all (suc n) [] h = refl
take-all (suc n) (x ∷ l) h = ap (λ t. x ∷ t) (take-all n l (omega (arith, h)))

stored_ok_injective {ℓ} : {A : Type ℓ} {a b : A} → stored_ok a ≡ stored_ok b → a ≡ b
stored_ok_injective e = ground (arith, e)

read_rows-unlimited :
    (f : Formats) (s : Sqlite) (b : Bounds) (o : ExportOptions) (start end_ : Option String)
    (rows : List Row)
    → length (read_rows s b (unlimited (export_filters o start end_)) (scanned_hits f rows))
      ≤ export_limit
    → read_rows s b (export_filters o start end_) (scanned_hits f rows)
      ≡ read_rows s b (unlimited (export_filters o start end_)) (scanned_hits f rows)
unfolding read_rows selects
read_rows-unlimited f s b o start end_ rows h =
    let hits =
      sorted (comes_before s)
        (selected (selects s b (export_filters o start end_)) (scanned_hits f rows)) in
    ap rows_of_hits (take-all export_limit hits (omega (arith, h, length-rows_of_hits hits)))

-- An export to JSON holds all the rows that an unlimited query with the same filters returns, if
-- `count` finds at most 100000 of them; on a database after any history of writes. The hypotheses:
-- the order of texts is a strict total order, and the times are valid.
pub export-unlimited :
    (f : Formats) (s : Sqlite) (lib : TimeLib) (now later : ℕ) (o : ExportOptions) (files : Files)
    (db : Database) (start end_ : Option String) (b : Bounds) (n : ℕ)
    → IsOrder s
    → History f (new_database f) db
    → files.active ≡ present db
    → o.is_json ≡ true
    → parse_option f lib now o.since ≡ ok start
    → parse_option f lib later o.until ≡ ok end_
    → bounds_of f (export_filters o start end_) ≡ stored_ok b
    → (count f s (export_filters o start end_) files).0 ≡ stored_ok n
    → n ≤ export_limit
    → (rows : List Row) × ((query f s (unlimited (export_filters o start end_)) files).0
        ≡ stored_ok rows)
      × ((export f s lib now later o files).0 ≡ ok (json_file rows))
      × (length rows ≡ n)
unfolding export query_sqlite filters_of
export-unlimited f s lib now later o files db start end_ b n order past active json since until
      valid counted fits =
    let q = export_filters o start end_ in
    let all = count-query f s q b files db order past active valid in
    let scan = (query-scan f s (unlimited q) b files db order past active valid).0 in
    let same : read_rows s b (unlimited q) (scanned_hits f db.events) ≡ all.0 =
      stored_ok_injective (sym scan ∙ all.1) in
    let size : length all.0 ≡ n = stored_ok_injective (sym all.2 ∙ counted) in
    let short : length (read_rows s b (unlimited q) (scanned_hits f db.events)) ≤ export_limit =
      omega (arith, ap length same, size, fits) in
    (
      all.0,
      all.1,
      ap
            (λ (r : Result (Option String)).
              written o.is_json
                (query_files f s files
                  (filters_from (export_query o) r (parse_option f lib later o.until))).0)
            since
          ∙ ap
              (λ (r : Result (Option String)).
                written o.is_json
                  (query_files f s files (filters_from (export_query o) (ok start) r)).0)
              until
          ∙ ap (λ (r : StorageResult (List Row)). written o.is_json (of_storage r))
              (query-scan f s q b files db order past active valid).0
          ∙ ap (λ j. written j (ok (read_rows s b q (scanned_hits f db.events)))) json
          ∙ ap (λ rows. ok (json_file rows))
              (read_rows-unlimited f s b o start end_ db.events short ∙ same),
      size,
    )
