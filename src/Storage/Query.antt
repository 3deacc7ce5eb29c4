-- ===== src/Storage/Query.antt =====
-- `query`, `count`, `get_services` and `get_event_types` of src/dbus_event_log/storage.py: reading
-- through the time index, or by a scan where a row has no id.
pub mod Sorting
pub mod Sources
pub mod Readable
pub mod Results
pub mod Selection
use Prim.Native.String.{◌++◌ as str_append}
use dbus_event_log.Prelude.{
  ℕ, ◌≡◌, String, Bool, true, false, not, ◌&&◌, ◌||◌, Option, none, some, List, [], ◌∷◌, length,
  take, drop, ltb, leb, str_eq, is_some, if◌then◌else◌,
}
use dbus_event_log.Event.{ℤ, pos, negsuc}
use dbus_event_log.Event.Kinds.{EventType, event_type_value}
use dbus_event_log.Storage.Time.{Formats, utc_timestamp}
use dbus_event_log.Storage.Tables.{Row, TimeEntry, Index, Database, find_event}
use dbus_event_log.Storage.Refresh.{prepare_timestamp_query}
use dbus_event_log.Storage.Files.{
  Active, missing, blank, present, Files, Result, ok, err, no_such_table, invalid_timestamp,
}

-- SQLite's comparisons of texts: `LIKE` of a pattern and a text, and the order of the BINARY
-- collation.
pub record Sqlite : Type 0 where
  pub like : String → String → Bool
  pub precedes : String → String → Bool

-- BINARY is a strict total order.
pub record IsOrder (q : Sqlite) : Type 0 where
  pub irreflexive : (a : String) → q.precedes a a ≡ false
  pub transitive :
      (a b c : String) → q.precedes a b ≡ true → q.precedes b c ≡ true → q.precedes a c ≡ true
  pub connected : (a b : String) → q.precedes a b ≡ false → q.precedes b a ≡ false → a ≡ b

-- The arguments of `query` and `count`; `limit` and `offset` are those of `query`.
pub record Filters : Type 0 where
  pub start_time : Option String
  pub end_time : Option String
  pub service : Option String
  pub event_type : Option EventType
  pub limit : ℤ
  pub offset : ℤ

-- The bounds as instants.
pub record Bounds : Type 0 where
  pub start : Option ℕ
  pub end_ : Option ℕ

-- A row of the source of a query, with its timestamp expression.
pub record Hit : Type 0 where
  pub instant : Option ℕ
  pub row : Row

-- `_sqlite_query_timestamp(value) if value else None`
abbrev pub bound_of : Formats → Option String → Result (Option ℕ)
bound_of f none = ok none
bound_of f (some value) =
    if str_eq value ""
    then ok none
    else elim (utc_timestamp f value) [ none ↦ err invalid_timestamp | some t ↦ ok (some t) ]

abbrev with_end : Option ℕ → Result (Option ℕ) → Result Bounds
with_end start (err e) = err e
with_end start (ok end_) = ok (record { start = start; end_ = end_ })

abbrev with_start : Result (Option ℕ) → Result (Option ℕ) → Result Bounds
with_start (err e) end_ = err e
with_start (ok start) end_ = with_end start end_

abbrev pub bounds_of : Formats → Filters → Result Bounds
bounds_of f q = with_start (bound_of f q.start_time) (bound_of f q.end_time)

abbrev pub at_least : Option ℕ → Option ℕ → Bool
at_least none instant = true
at_least (some t) none = false
at_least (some t) (some i) = leb t i

abbrev at_most : Option ℕ → Option ℕ → Bool
at_most none instant = true
at_most (some t) none = false
at_most (some t) (some i) = leb i t

abbrev pub like_service : Sqlite → Option String → String → Bool
like_service s none name = true
like_service s (some service) name =
    if str_eq service "" then true else s.like (str_append "%" (str_append service "%")) name

abbrev has_type : Option EventType → String → Bool
has_type none value = true
has_type (some t) value = str_eq value (event_type_value t)

-- `_filter_clause`; a comparison with NULL is not true.
unfoldable pub selects : Sqlite → Bounds → Filters → Hit → Bool
selects s b q h =
    at_least b.start h.instant
    && at_most b.end_ h.instant
    && like_service s q.service h.row.service_name
    && has_type q.event_type h.row.event_type

abbrev pub with_hit : Option Row → TimeEntry → List Hit → List Hit
with_hit none e hits = hits
with_hit (some r) e hits = record { instant = e.utc_timestamp; row = r } ∷ hits

-- `event_timestamps CROSS JOIN events ON events.id = event_timestamps.event_id`
unfoldable pub indexed_hits : List Row → Index → List Hit
indexed_hits events [] = []
indexed_hits events ((k, e) ∷ rest) = with_hit (find_event k events) e (indexed_hits events rest)

-- `events`, with `event_utc(timestamp)`
unfoldable pub scanned_hits : Formats → List Row → List Hit
scanned_hits f [] = []
scanned_hits f (r ∷ rest) =
    record { instant = utc_timestamp f r.timestamp; row = r } ∷ scanned_hits f rest

-- NULL comes before every value.
abbrev pub instant_after : Option ℕ → Option ℕ → Bool
instant_after none y = false
instant_after (some a) none = true
instant_after (some a) (some b) = ltb b a

abbrev pub id_after : Sqlite → Option String → Option String → Bool
id_after s none y = false
id_after s (some a) none = true
id_after s (some a) (some b) = s.precedes b a

-- `ORDER BY {timestamp} DESC, {event_id} DESC`
unfoldable pub comes_before : Sqlite → Hit → Hit → Bool
comes_before s a b =
    instant_after a.instant b.instant
    || (not (instant_after b.instant a.instant) && id_after s a.row.id b.row.id)

unfoldable pub insert_sorted {ℓ} : {A : Type ℓ} → (A → A → Bool) → A → List A → List A
insert_sorted before x [] = x ∷ []
insert_sorted before x (y ∷ l) =
    let later = insert_sorted before x l in if before x y then x ∷ y ∷ l else y ∷ later

unfoldable pub sorted {ℓ} : {A : Type ℓ} → (A → A → Bool) → List A → List A
unfolding insert_sorted
sorted before [] = []
sorted before (x ∷ l) = insert_sorted before x (sorted before l)

unfoldable pub selected {ℓ} : {A : Type ℓ} → (A → Bool) → List A → List A
selected test [] = []
selected test (x ∷ l) = let others = selected test l in if test x then x ∷ others else others

-- `LIMIT ? OFFSET ?`: a negative limit is none, a negative offset is 0.
abbrev skip {ℓ} : {A : Type ℓ} → ℤ → List A → List A
skip (pos n) l = drop n l
skip (negsuc n) l = l

abbrev pub window {ℓ} : {A : Type ℓ} → ℤ → ℤ → List A → List A
window (pos n) offset l = take n (skip offset l)
window (negsuc n) offset l = skip offset l

unfoldable pub rows_of_hits : List Hit → List Row
rows_of_hits [] = []
rows_of_hits (h ∷ rest) = h.row ∷ rows_of_hits rest

-- The rows of a source that a query returns.
unfoldable pub read_rows : Sqlite → Bounds → Filters → List Hit → List Row
read_rows s b q hits =
    rows_of_hits (window q.limit q.offset (sorted (comes_before s) (selected (selects s b q) hits)))

-- `_timestamp_source`: an index that is not there raises when it is read.
unfoldable pub source : Formats → Bool → Database → Result (List Hit)
source f indexed db =
    if indexed
    then elim db.index [ none ↦ err no_such_table | some i ↦ ok (indexed_hits db.events i) ]
    else ok (scanned_hits f db.events)

abbrev pub result_of {ℓ} : {A : Type ℓ} → (List Hit → A) → Result (List Hit) → Result A
result_of read (err e) = err e
result_of read (ok hits) = ok (read hits)

-- One transaction that reads: the refreshed tables are committed.
abbrev pub read_present {ℓ} :
    {A : Type ℓ} → Formats → Bool → (List Hit → A) → Files → Database → Result A × Files
read_present f timed read s db =
    let prepared = if timed then prepare_timestamp_query f db else (db, false) in
    (result_of read (source f prepared.1 prepared.0), record s { active = present prepared.0 })

abbrev pub read_active {ℓ} :
    {A : Type ℓ} → Formats → Bool → (List Hit → A) → Files → Active → Result A × Files
read_active f timed read s missing = (err no_such_table, record s { active = blank })
read_active f timed read s blank = (err no_such_table, s)
read_active f timed read s (present db) = read_present f timed read s db

abbrev query_within : Formats → Sqlite → Filters → Files → Result Bounds → Result (List Row) × Files
query_within f s q files (err e) = (err e, files)
query_within f s q files (ok b) = read_active f true (read_rows s b q) files files.active

-- `query`
unfoldable pub query : Formats → Sqlite → Filters → Files → Result (List Row) × Files
query f s q files = query_within f s q files (bounds_of f q)

abbrev pub count_within : Formats → Sqlite → Filters → Files → Result Bounds → Result ℕ × Files
count_within f s q files (err e) = (err e, files)
count_within f s q files (ok b) =
    read_active f (is_some b.start || is_some b.end_)
      (λ hits. length (selected (selects s b q) hits)) files files.active

-- `count`: without a bound the index is neither refreshed nor read.
unfoldable pub count : Formats → Sqlite → Filters → Files → Result ℕ × Files
count f s q files = count_within f s q files (bounds_of f q)
