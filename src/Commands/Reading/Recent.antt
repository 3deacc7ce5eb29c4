-- ===== src/Commands/Reading/Recent.antt =====
-- `query --since 2h` and its like in src/dbus_event_log/cli.py, down to the rows of the store.
use dbus_event_log.Prelude.{
  ℕ, ◌-◌, ◌*◌, ◌≤◌, ◌≡◌, refl, ap, sym, ◌∙◌, String, Bool, true, false, ◌&&◌, Option, none, some,
  List, All, All-map, str_eq, eq_iff, arith, Bool-cases, inl, inr,
}
use dbus_event_log.Names.{drop_last}
use dbus_event_log.Event.{pos}
use dbus_event_log.Storage.Time.{Formats, IsFaithful, utc_timestamp, utc_timestamp-isoformat}
use dbus_event_log.Storage.Tables.{Row, Database}
use dbus_event_log.Storage.Writes.{History}
use dbus_event_log.Storage.Files.{ok as stored_ok, Files, present, new_database}
use dbus_event_log.Storage.Query.{
  Sqlite, IsOrder, Filters, Bounds, bounds_of, bound_of, at_least, selects, read_rows, scanned_hits,
}
use dbus_event_log.Storage.Query.Results.{query-scan}
use dbus_event_log.Storage.Query.Selection.{All-read_rows, hit_of}
use dbus_event_log.Commands.{ok, of_storage}
use dbus_event_log.Commands.Times.{
  TimeLib, unit_of, last_char, parse_time, parse_option, before_now,
}
use dbus_event_log.Commands.Reading.{
  QueryOptions, filters_from, filters_of, query_files, query_sqlite,
}

-- The four units, by their last character, in microseconds.
pub data IsUnit : ℕ → ℕ → Type 0 where
  hours : IsUnit b'h' 3_600_000_000
  minutes : IsUnit b'm' 60_000_000
  seconds : IsUnit b's' 1_000_000
  days : IsUnit b'd' 86_400_000_000

unit_of-IsUnit : {c unit : ℕ} → IsUnit c unit → unit_of c ≡ some unit
unit_of-IsUnit hours = refl
unit_of-IsUnit minutes = refl
unit_of-IsUnit seconds = refl
unit_of-IsUnit days = refl

-- A text like `2h`: its unit and its number.
pub record IsRelative (lib : TimeLib) (text : String) (n unit : ℕ) : Type 0 where
  pub unit_given : IsUnit (last_char text 0) unit
  pub number : lib.int (drop_last text) ≡ some (pos n)

-- What the program relies on beside `IsFaithful`: an empty text is no timestamp.
abbrev pub RefusesBlank : Formats → Type 0
RefusesBlank f = f.fromisoformat "" ≡ none

isoformat-given :
    (f : Formats) (t : ℕ) → IsFaithful f → RefusesBlank f → str_eq (f.isoformat t) "" ≡ false
isoformat-given f t w blank = elim (Bool-cases (str_eq (f.isoformat t) "")) [
  | inl e ↦ absurd (
      ground (
        arith,
        sym blank ∙ ap f.fromisoformat (sym ((eq_iff (f.isoformat t) "").0 e)) ∙ w.reads_back t,
      ))
  | inr e ↦ e
]

text-given :
    (lib : TimeLib) (text : String) (n unit : ℕ)
    → IsRelative lib text n unit
    → str_eq text "" ≡ false
unfolding last_char
text-given lib text n unit h = elim (Bool-cases (str_eq text "")) [
  | inl e ↦ absurd (
      ground (
        arith,
        ap (λ t. unit_of (last_char t 0)) (sym ((eq_iff text "").0 e))
            ∙ unit_of-IsUnit h.unit_given,
      ))
  | inr e ↦ e
]

before_now-pos :
    (now unit n : ℕ) → n * unit ≤ now → before_now now unit (pos n) ≡ some (now - n * unit)
unfolding before_now
before_now-pos now unit n h = ground (arith, h)

-- A relative time is the ISO text of so many units before now.
pub parse_option-isoformat :
    (f : Formats) (lib : TimeLib) (now : ℕ) (text : String) (n unit : ℕ)
    → IsRelative lib text n unit
    → n * unit ≤ now
    → parse_option f lib now (some text) ≡ ok (some (f.isoformat (now - n * unit)))
unfolding parse_time
parse_option-isoformat f lib now text n unit h fits = simp (
  text-given lib text n unit h,
  unit_of-IsUnit h.unit_given,
  h.number,
  before_now-pos now unit n fits,
)

bound_of-isoformat :
    (f : Formats) (t : ℕ)
    → IsFaithful f
    → RefusesBlank f
    → bound_of f (some (f.isoformat t)) ≡ stored_ok (some t)
bound_of-isoformat f t w blank = simp (isoformat-given f t w blank, utc_timestamp-isoformat f t w)

-- The timestamp can be read and is not before the cutoff.
abbrev pub IsSince : Formats → ℕ → Row → Type 0
IsSince f cutoff r = (t : ℕ) × (utc_timestamp f r.timestamp ≡ some t) × (cutoff ≤ t)

selects-IsSince :
    (f : Formats) (s : Sqlite) (q : Filters) (cutoff : ℕ) (r : Row)
    → selects s (record { start = some cutoff; end_ = none }) q (hit_of f r) ≡ true
    → IsSince f cutoff r
unfolding selects
selects-IsSince f s q cutoff r h = by_instant (utc_timestamp f r.timestamp) _ _ _ refl h
  where
    by_instant :
        (o : Option ℕ) (a b c : Bool)
        → utc_timestamp f r.timestamp ≡ o
        → (at_least (some cutoff) o && a && b && c) ≡ true
        → IsSince f cutoff r
    by_instant none a b c e kept = absurd (ground (arith, kept))
    by_instant (some t) a b c e kept = (t, e, ground (arith, kept))

-- The options with a relative start and no end.
abbrev pub since_only : String → QueryOptions → QueryOptions
since_only text o = record o { since = some text; until = none }

-- Its filters, with the cutoff for the start.
abbrev pub recent_filters : Formats → ℕ → QueryOptions → Filters
recent_filters f cutoff o = record {
  start_time = some (f.isoformat cutoff);
  end_time = none;
  service = o.service;
  event_type = o.event_type;
  limit = o.limit;
  offset = o.offset;
}

-- The rows of a scan of all events with only a start.
abbrev pub since_rows : Formats → Sqlite → ℕ → QueryOptions → Database → List Row
since_rows f s cutoff o db =
    read_rows s (record { start = some cutoff; end_ = none }) (recent_filters f cutoff o)
      (scanned_hits f db.events)

-- `query --since` with a number and one of the four units (hours, minutes, seconds, days), at any
-- limit, offset, service and type, returns on a database after any history of writes; its rows are
-- exactly those that a scan of all events selects, orders and cuts with the start so many units ago
-- and no end; and the timestamp of every one can be read and lies not before that start. The
-- hypotheses: the formats are faithful and an empty text is no timestamp, the order of texts is a
-- strict total order, and the start is not before the year 1.
pub query_sqlite-IsSince :
    (f : Formats) (s : Sqlite) (lib : TimeLib) (now later : ℕ) (o : QueryOptions) (files : Files)
    (db : Database) (text : String) (n unit : ℕ)
    → IsFaithful f
    → RefusesBlank f
    → IsOrder s
    → History f (new_database f) db
    → files.active ≡ present db
    → IsRelative lib text n unit
    → n * unit ≤ now
    → ((query_sqlite f s lib now later (since_only text o) files).0
        ≡ ok (since_rows f s (now - n * unit) o db))
      × All (IsSince f (now - n * unit)) (since_rows f s (now - n * unit) o db)
unfolding query_sqlite filters_of
query_sqlite-IsSince f s lib now later o files db text n unit w blank order past active relative
      fits =
    let cutoff = now - n * unit in
    let bounds : Bounds = record { start = some cutoff; end_ = none } in
    let q = recent_filters f cutoff o in
    let valid : bounds_of f q ≡ stored_ok bounds = simp (bound_of-isoformat f cutoff w blank) in
    (
      ap (λ r. (query_files f s files (filters_from (since_only text o) r (ok none))).0)
            (parse_option-isoformat f lib now text n unit relative fits)
          ∙ ap of_storage (query-scan f s q bounds files db order past active valid).0,
      All-map (read_rows s bounds q (scanned_hits f db.events)) (selects-IsSince f s q cutoff)
          (All-read_rows f s bounds q db.events),
    )
