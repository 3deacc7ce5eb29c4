-- ===== src/Storage/Files/Retention.antt =====
-- Retention in src/dbus_event_log/storage.py: `cleanup`, `vacuum` and `maintain`.
use dbus_event_log.Prelude.{
  ℕ, zero, suc, ◌+◌, ◌-◌, ◌*◌, ◌≤◌, ◌<◌, ◌≡◌, refl, subst, ap, sym, ◌∙◌, Bool, true, false, Option,
  none, some, List, [], ◌∷◌, ◌++◌, ltb, leb, ◌&&◌, if◌then◌else◌, arith, All, Bool-cases, inl, inr,
}
use dbus_event_log.Config.{StorageConfig}
use dbus_event_log.Event.{ℤ, pos, negsuc}
use dbus_event_log.Storage.Time.{Formats, utc_timestamp}
use dbus_event_log.Storage.Tables.{Row, Index, Database, delete_rows, count_doomed, kept}
use dbus_event_log.Storage.Files.{
  Active, missing, blank, present, Archive, Files, Result, ok, err, no_such_table,
  negative_retention, unrepresentable_cutoff, has_events, RotationEnv, rotate, prune_archives,
}

-- `event_utc(timestamp) < ?`, which is NULL, so not true, for a malformed timestamp.
unfoldable pub is_expired : Formats → ℕ → Row → Bool
is_expired f cutoff r = elim (utc_timestamp f r.timestamp) [ none ↦ false | some t ↦ ltb t cutoff ]

abbrev pub microseconds_per_day : ℕ
microseconds_per_day = 86_400_000_000

-- `now - timedelta(days=retention)`: OverflowError before the year 1.
abbrev pub cutoff_of : ℕ → ℕ → Option ℕ
cutoff_of days now =
    if leb (days * microseconds_per_day) now then some (now - days * microseconds_per_day) else none

-- The loop of `cleanup` on the archives: the rows that go, and what is left; an archive without
-- rows is unlinked.
unfoldable pub clean_archives : (Row → Bool) → List Archive → ℕ × List Archive
clean_archives doomed [] = (0, [])
clean_archives doomed (a ∷ rest) =
    let later = clean_archives doomed rest in
    let left = record a { content = delete_rows doomed a.content } in
    (
      count_doomed doomed a.content.events + later.0,
      (if has_events left.content then left ∷ later.1 else later.1),
    )

-- The loop of `cleanup`, the active database first; connecting to a missing one makes a blank one.
unfoldable pub clean_files : (Row → Bool) → Files → Result ℕ × Files
clean_files doomed s = elim s.active [
  | missing ↦ (err no_such_table, record s { active = blank })
  | blank ↦ (err no_such_table, s)
  | present db ↦
      let cleaned = clean_archives doomed s.archives in
      (
        ok (count_doomed doomed db.events + cleaned.0),
        record s { active = present (delete_rows doomed db); archives = cleaned.1 },
      )
]

abbrev clean_before : Formats → Option ℕ → Files → Result ℕ × Files
clean_before f none s = (err unrepresentable_cutoff, s)
clean_before f (some cutoff) s = clean_files (is_expired f cutoff) s

-- `retention_days` of the configuration is never negative.
abbrev pub retention : Option ℤ → Files → ℤ
retention none s = pos s.config.retention_days
retention (some days) s = days

abbrev clean_days : Formats → ℤ → ℕ → Files → Result ℕ × Files
clean_days f (negsuc n) now s = (err negative_retention, s)
clean_days f (pos zero) now s = (ok 0, s)
clean_days f (pos (suc n)) now s = clean_before f (cutoff_of (suc n) now) s

-- `cleanup` at the instant `now`.
unfoldable pub cleanup : Formats → Option ℤ → ℕ → Files → Result ℕ × Files
cleanup f days now s = clean_days f (retention days s) now s

-- `vacuum`: connecting to a missing file makes a blank one; no row changes.
unfoldable pub vacuum : Files → Files
vacuum s = elim s.active [ missing ↦ record s { active = blank } | blank ↦ s | present db ↦ s ]

abbrev rotate_and_prune : Formats → RotationEnv → Files → Result (Unit {0}) × Files
rotate_and_prune f env s = elim (rotate f env s).0 [
  | err e ↦ (err e, (rotate f env s).1)
  | ok path ↦ (ok tt, prune_archives (rotate f env s).1)
]

-- `maintain`: the first step that raises ends it.
unfoldable pub maintain : Formats → RotationEnv → Bool → ℕ → Files → Result (Unit {0}) × Files
maintain f env startup now s =
    let cleaned = cleanup f none now s in
    elim cleaned.0 [
      | err e ↦ (err e, cleaned.1)
      | ok n ↦
          rotate_and_prune f env
            (if startup && s.config.vacuum_on_startup then vacuum cleaned.1 else cleaned.1)
    ]

-- The rows of all files, the oldest archive first.
unfoldable pub archived_rows : List Archive → List Row
archived_rows [] = []
archived_rows (a ∷ rest) = a.content.events ++ archived_rows rest

abbrev pub active_rows : Active → List Row
active_rows missing = []
active_rows blank = []
active_rows (present db) = db.events

abbrev pub all_rows : Files → List Row
all_rows s = active_rows s.active ++ archived_rows s.archives

pub kept-append :
    (doomed : Row → Bool) (a b : List Row) → kept doomed (a ++ b) ≡ kept doomed a ++ kept doomed b
unfolding kept
kept-append doomed [] b = refl
kept-append doomed (r ∷ rest) b = ground (arith, kept-append doomed rest b)

pub count_doomed-append :
    (doomed : Row → Bool) (a b : List Row)
    → count_doomed doomed (a ++ b) ≡ count_doomed doomed a + count_doomed doomed b
unfolding count_doomed
count_doomed-append doomed [] b = omega arith
count_doomed-append doomed (r ∷ rest) b = ground (arith, count_doomed-append doomed rest b)

rows-keep_used :
    (n : ℕ) (version : List ℕ) (events : List Row) (index : Option Index) (rest : List Archive)
    → archived_rows (
        if has_events (record { version = version; events = events; index = index })
        then record {
          number = n;
          content = record { version = version; events = events; index = index };
        }
          ∷ rest
        else rest)
      ≡ events ++ archived_rows rest
unfolding archived_rows
rows-keep_used n version [] index rest = refl
rows-keep_used n version (r ∷ events) index rest = refl

clean_archives_rows :
    (doomed : Row → Bool) (archives : List Archive)
    → archived_rows (clean_archives doomed archives).1 ≡ kept doomed (archived_rows archives)
unfolding clean_archives archived_rows delete_rows kept
clean_archives_rows doomed [] = refl
clean_archives_rows doomed (a ∷ rest) =
    let left = delete_rows doomed a.content in
    rows-keep_used a.number left.version left.events left.index (clean_archives doomed rest).1
    ∙ ap (λ rows. kept doomed a.content.events ++ rows) (clean_archives_rows doomed rest)
    ∙ sym (kept-append doomed a.content.events (archived_rows rest))

clean_archives_count :
    (doomed : Row → Bool) (archives : List Archive)
    → (clean_archives doomed archives).0 ≡ count_doomed doomed (archived_rows archives)
unfolding clean_archives archived_rows
clean_archives_count doomed [] = unfold count_doomed in refl
clean_archives_count doomed (a ∷ rest) = ground (
  arith,
  clean_archives_count doomed rest,
  count_doomed-append doomed a.content.events (archived_rows rest),
)

clean_archives_used :
    (doomed : Row → Bool) (archives : List Archive)
    → All (λ (a : Archive). has_events a.content ≡ true) (clean_archives doomed archives).1
unfolding clean_archives
clean_archives_used doomed [] = tt
clean_archives_used doomed (a ∷ rest) =
    elim (Bool-cases (has_events (delete_rows doomed a.content))) [
      | inl used ↦ simp used ((refl, clean_archives_used doomed rest))
      | inr empty ↦ simp empty (clean_archives_used doomed rest)
    ]

-- What a cleanup promises: over all files together exactly the doomed rows go, in every file and
-- without a change of order, their number is returned, and no archive without rows stays.
pub record Cleaned (doomed : Row → Bool) (s : Files) (r : Result ℕ × Files) : Type 0 where
  pub counted : r.0 ≡ ok (count_doomed doomed (all_rows s))
  pub remaining : all_rows r.1 ≡ kept doomed (all_rows s)
  pub archives_used : All (λ (a : Archive). has_events a.content ≡ true) r.1.archives

clean_present :
    (doomed : Row → Bool) (config : StorageConfig) (db : Database) (archives : List Archive)
    (occupied : List ℕ)
    → Cleaned doomed
        (record { config = config; active = present db; archives = archives; occupied = occupied })
        (clean_files doomed (record {
          config = config;
          active = present db;
          archives = archives;
          occupied = occupied;
        }))
unfolding clean_files delete_rows
clean_present doomed config db archives occupied = record {
  counted =
      ap (λ n. ok (count_doomed doomed db.events + n)) (clean_archives_count doomed archives)
      ∙ ap ok (sym (count_doomed-append doomed db.events (archived_rows archives)));
  remaining =
      ap (λ rows. kept doomed db.events ++ rows) (clean_archives_rows doomed archives)
      ∙ sym (kept-append doomed db.events (archived_rows archives));
  archives_used = clean_archives_used doomed archives;
}

clean_files-Cleaned :
    (doomed : Row → Bool) (s : Files) (db : Database)
    → s.active ≡ present db
    → Cleaned doomed s (clean_files doomed s)
clean_files-Cleaned doomed s db e =
    subst
      (λ a. Cleaned doomed (record s { active = a }) (clean_files doomed (record s { active = a })))
      (sym e) (clean_present doomed s.config db s.archives s.occupied)

cutoff_fits :
    (days now : ℕ)
    → days * microseconds_per_day ≤ now
    → cutoff_of days now ≡ some (now - days * microseconds_per_day)
cutoff_fits days now h = ground arith

-- A cleanup with a positive retention of a store whose active database exists deletes, from the
-- active database and all archives, exactly the rows whose timestamp can be read and lies strictly
-- before `now` less that many days; it returns their number, keeps the others in order, and leaves
-- no archive without rows. The hypotheses: the days are positive and the cutoff is not before the
-- year 1.
pub cleanup-Cleaned :
    (f : Formats) (days : Option ℤ) (d now : ℕ) (s : Files) (db : Database)
    → s.active ≡ present db
    → retention days s ≡ pos d
    → 0 < d
    → d * microseconds_per_day ≤ now
    → Cleaned (is_expired f (now - d * microseconds_per_day)) s (cleanup f days now s)
unfolding cleanup
cleanup-Cleaned f days zero now s db e r h fits = absurd (omega (arith, h))
cleanup-Cleaned f days (suc d) now s db e r h fits =
    let doomed = is_expired f (now - suc d * microseconds_per_day) in
    subst (λ z. Cleaned doomed s (clean_days f z now s)) (sym r)
      (subst (λ c. Cleaned doomed s (clean_before f c s)) (sym (cutoff_fits (suc d) now fits))
        (clean_files-Cleaned doomed s db e))
