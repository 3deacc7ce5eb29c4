-- ===== src/Commands/Reading/Statistics.antt =====
-- The command `stats` of src/dbus_event_log/cli.py.
use dbus_event_log.Prelude.{
  ℕ, suc, ◌≡◌, refl, ap, sym, ◌∙◌, subst, String, Option, none, some, List, [], ◌∷◌, length,
  if◌then◌else◌, Bool-cases, inl, inr,
}
use dbus_event_log.Event.{pos}
use dbus_event_log.Storage.Time.{Formats}
use dbus_event_log.Storage.Tables.{Row, Database}
use dbus_event_log.Storage.Files.{Result, ok, err, Files, present}
use dbus_event_log.Storage.Query.{
  Sqlite, Filters, Bounds, count, like_service, selects, selected, scanned_hits, source,
}
use dbus_event_log.Storage.Distinct.{
  get_services, get_event_types, distinct, services_of, event_types_of,
}

-- What is shown.
pub record Stats : Type 0 where
  pub total : ℕ
  pub services : List (String × ℕ)
  pub event_types : ℕ

-- The next call, unless the one before it raised.
abbrev pub and_then {ℓ κ} :
    {A : Type ℓ} {B : Type κ} → Result A × Files → (A → Files → Result B × Files) → Result B × Files
and_then (err e, files) next = (err e, files)
and_then (ok a, files) next = next a files

-- The filters of `count()` and `count(service=svc)`.
abbrev pub service_filters : Option String → Filters
service_filters service = record {
  start_time = none;
  end_time = none;
  service = service;
  event_type = none;
  limit = pos 0;
  offset = pos 0;
}

-- The loop over the services.
unfoldable pub count_services :
    Formats → Sqlite → List String → Files → Result (List (String × ℕ)) × Files
count_services f s [] files = (ok [], files)
count_services f s (svc ∷ rest) files =
    and_then (count f s (service_filters (some svc)) files) (λ n after.
      and_then (count_services f s rest after) (λ counts last. (ok ((svc, n) ∷ counts), last)))

-- `stats` on a SQLite storage
unfoldable pub stats : Formats → Sqlite → Files → Result Stats × Files
stats f s files = and_then (count f s (service_filters none) files) (λ total files1.
    and_then (get_services s files1) (λ services files2.
      and_then (get_event_types s files2) (λ types files3.
        and_then (count_services f s services files3) (λ counts files4.
          (ok (record { total = total; services = counts; event_types = length types }), files4)))))

-- The events whose service is LIKE a name with anything around it.
abbrev pub matching : Sqlite → String → List Row → ℕ
matching s svc [] = 0
matching s svc (r ∷ rest) =
    let others = matching s svc rest in
    if like_service s (some svc) r.service_name then suc others else others

abbrev pub with_counts : Sqlite → List Row → List String → List (String × ℕ)
with_counts s rows [] = []
with_counts s rows (svc ∷ rest) = (svc, matching s svc rows) ∷ with_counts s rows rest

abbrev no_bounds : Bounds
no_bounds = record { start = none; end_ = none }

selected-everything :
    (f : Formats) (s : Sqlite) (rows : List Row)
    → length (selected (selects s no_bounds (service_filters none)) (scanned_hits f rows))
      ≡ length rows
unfolding selected selects scanned_hits
selected-everything f s [] = refl
selected-everything f s (r ∷ rest) = ap suc (selected-everything f s rest)

selected-matching :
    (f : Formats) (s : Sqlite) (svc : String) (rows : List Row)
    → length (selected (selects s no_bounds (service_filters (some svc))) (scanned_hits f rows))
      ≡ matching s svc rows
unfolding selected selects scanned_hits
selected-matching f s svc [] = refl
selected-matching f s svc (r ∷ rest) =
    elim (Bool-cases (like_service s (some svc) r.service_name)) [
      | inl e ↦ rw e (ap suc (selected-matching f s svc rest))
      | inr e ↦ rw e (selected-matching f s svc rest)
    ]

count_services-with_counts :
    (f : Formats) (s : Sqlite) (names : List String) (files : Files) (db : Database)
    → count_services f s names (record files { active = present db })
      ≡ (ok (with_counts s db.events names), record files { active = present db })
unfolding count_services count source
count_services-with_counts f s [] files db = refl
count_services-with_counts f s (svc ∷ rest) files db =
    let opened = record files { active = present db } in
    ap
      (λ r. and_then r (λ counts last. (
        ok (
            (
              svc,
              length (
                  selected (selects s no_bounds (service_filters (some svc)))
                    (scanned_hits f db.events)),
            )
            ∷ counts),
        last,
      )))
      (count_services-with_counts f s rest files db)
    ∙ ap (λ n. (ok ((svc, n) ∷ with_counts s db.events rest), opened))
        (selected-matching f s svc db.events)

-- What `stats` promises on a database with these events.
abbrev pub summary : Sqlite → List Row → Stats
summary s rows = record {
  total = length rows;
  services = with_counts s rows (distinct s (services_of rows));
  event_types = length (distinct s (event_types_of rows));
}

opened_summary :
    (f : Formats) (s : Sqlite) (files : Files) (db : Database)
    → (stats f s (record files { active = present db })).0 ≡ ok (summary s db.events)
unfolding stats count source get_services get_event_types
opened_summary f s files db =
    let opened = record files { active = present db } in
    let types = length (distinct s (event_types_of db.events)) in
    let names = distinct s (services_of db.events) in
    ap
      (λ (n : ℕ).
        (and_then (count_services f s names opened) (λ counts files4.
          (ok (record { total = n; services = counts; event_types = types }), files4))).0)
      (selected-everything f s db.events)
    ∙ ap
        (λ r.
          (and_then r (λ counts files4. (
            ok (record { total = length db.events; services = counts; event_types = types }),
            files4,
          ))).0)
        (count_services-with_counts f s names files db)

-- `stats` shows the number of all events, the number of distinct event types, and each distinct
-- service with the number of events whose service is LIKE its name with anything around it: so an
-- event is also counted under every other service whose name its own contains. The hypothesis: the
-- active database exists.
pub stats-summary :
    (f : Formats) (s : Sqlite) (files : Files) (db : Database)
    → files.active ≡ present db
    → (stats f s files).0 ≡ ok (summary s db.events)
stats-summary f s files db active =
    subst (λ a. (stats f s (record files { active = a })).0 ≡ ok (summary s db.events)) (sym active)
      (opened_summary f s files db)
