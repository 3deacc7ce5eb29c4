-- ===== src/Storage/Files/Rotation.antt =====
-- Rotation in src/dbus_event_log/storage.py: the numbers of archives, and what one rotation does to
-- the files.
use dbus_event_log.Prelude.{
  ℕ, zero, suc, ◌+◌, ◌-◌, ◌≤◌, ◌<◌, ◌≡◌, refl, ◌⊎◌, inl, inr, Bool, true, false, not, Option, some,
  List, [], ◌∷◌, ◌++◌, any, length, take, take-append-drop, length-drop, length-append, ltb, ◌==◌,
  ◌||◌, min, if◌then◌else◌, arith, Bool-cases, All,
}
use dbus_event_log.Storage.Time.{Formats}
use dbus_event_log.Storage.Tables.{Database}
use dbus_event_log.Storage.Files.{
  Active, missing, blank, present, Archive, Files, Result, ok, RotationEnv, rotate, rotate_active,
  is_missing, rotate_full, replace_active, prune_archives, archive_number, free_number, is_used,
  largest, last_number, first_number, new_database, has_events, rotation_limit,
}

any-largest :
    (occupied : List ℕ) (n : ℕ) → largest occupied < n → any (λ m. m == n) occupied ≡ false
any-largest [] n h = refl
any-largest (m ∷ rest) n h = ground (arith, any-largest rest n)

-- The archives stand in the order of their numbers.
abbrev pub IsAscending : List Archive → Type 0
IsAscending [] = Unit {0}
IsAscending (a ∷ rest) = All (λ (b : Archive). a.number < b.number) rest × IsAscending rest

below_last :
    (a : Archive) (rest : List Archive) → IsAscending (a ∷ rest) → a.number ≤ last_number (a ∷ rest)
below_last a [] h = omega arith
below_last a (b ∷ rest) h = omega (arith, below_last b rest h.1)

unused_above :
    (archives : List Archive) (n : ℕ)
    → IsAscending archives
    → last_number archives < n
    → any (λ (a : Archive). a.number == n) archives ≡ false
unused_above [] n h l = refl
unused_above (a ∷ []) n h l = ground arith
unused_above (a ∷ b ∷ rest) n h l =
    ground (arith, below_last a (b ∷ rest) h, unused_above (b ∷ rest) n h.1)

-- The search ends at a number that nothing has, with enough fuel.
free_number_lem :
    (fuel : ℕ) (archives : List Archive) (occupied : List ℕ) (n : ℕ)
    → IsAscending archives
    → last_number archives < n
    → largest occupied < n + fuel
    → (is_used archives occupied (free_number fuel archives occupied n) ≡ false)
      × (n ≤ free_number fuel archives occupied n)
unfolding free_number is_used
free_number_lem zero archives occupied n h l f =
    ground (arith, unused_above archives n h l, any-largest occupied n)
free_number_lem (suc fuel) archives occupied n h l f =
    ground (arith, free_number_lem fuel archives occupied (n + 1) h)

archive_number_free :
    (env : RotationEnv) (s : Files)
    → IsAscending s.archives
    → (is_used s.archives s.occupied (archive_number env s) ≡ false)
      × (last_number s.archives < archive_number env s)
unfolding archive_number
archive_number_free env s h =
    let found =
      free_number_lem (suc (largest s.occupied)) s.archives s.occupied (first_number env s.archives)
        h (omega arith) (omega arith) in
    (found.0, omega (arith, found.1))

-- What a rotation does: the old database becomes the newest archive, under a number that nothing
-- had and that is larger than those of all other archives; an empty database takes its place; and
-- only the oldest archives beyond the configured count are removed.
pub record Rotated (f : Formats) (s : Files) (n : ℕ) (s' : Files) : Type 0 where
  pub db : Database
  pub was_active : s.active ≡ present db
  pub had_events : has_events db ≡ true
  pub replaced : s'.active ≡ present (new_database f)
  pub unused : is_used s.archives s.occupied n ≡ false
  pub newest : last_number s.archives < n
  pub dropped : List Archive
  pub rest : dropped ++ s'.archives ≡ s.archives ++ record { number = n; content = db } ∷ []
  pub kept : length s'.archives ≡ min (length s.archives + 1) s.config.rotation_max_archives

replace_active_cases :
    (f : Formats) (env : RotationEnv) (db : Database) (s : Files)
    → s.active ≡ present db
    → has_events db ≡ true
    → IsAscending s.archives
    → ((replace_active f env db s).1 ≡ s)
      ⊎ ((n : ℕ) × ((replace_active f env db s).0 ≡ ok (some n))
          × Rotated f s n (replace_active f env db s).1)
unfolding replace_active prune_archives
replace_active_cases f env db s was had order = elim (Bool-cases env.replace_works) [
  | inr fails ↦ inl (rw fails refl)
  | inl works ↦
      let n = archive_number env s in
      let all = s.archives ++ record { number = n; content = db } ∷ [] in
      let k = length all - s.config.rotation_max_archives in
      let free = archive_number_free env s order in
      inr (
        n,
        rw works refl,
        simp works (record {
          db = db;
          was_active = was;
          had_events = had;
          replaced = refl;
          unused = free.0;
          newest = free.1;
          dropped = take k all;
          rest = take-append-drop k all;
          kept = omega (
            arith,
            length-drop k all,
            length-append s.archives (record { number = n; content = db } ∷ []),
          );
        }),
      )
]

abbrev Outcome : Formats → Files → Result (Option ℕ) × Files → Type 0
Outcome f s r = (r.1 ≡ s) ⊎ ((n : ℕ) × (r.0 ≡ ok (some n)) × Rotated f s n r.1)

Outcome-if :
    {f : Formats} {s : Files} (b : Bool) {x y : Result (Option ℕ) × Files}
    → (b ≡ true → Outcome f s x)
    → (b ≡ false → Outcome f s y)
    → Outcome f s (if b then x else y)
Outcome-if true then_case else_case = then_case refl
Outcome-if false then_case else_case = else_case refl

rotate_full-Outcome :
    (f : Formats) (env : RotationEnv) (db : Database) (s : Files)
    → s.active ≡ present db
    → IsAscending s.archives
    → Outcome f s (rotate_full f env db s)
unfolding rotate_full
rotate_full-Outcome f env db s was order =
    Outcome-if (not (has_events db)) (λ _. inl refl)
      (λ had.
        Outcome-if env.is_busy (λ _. inl refl)
          (λ _.
            Outcome-if (not env.mode_is_delete) (λ _. inl refl)
              (λ _.
                Outcome-if env.has_sidecars (λ _. inl refl)
                  (λ _. replace_active_cases f env db s was (ground (arith, had)) order))))

rotate_active-Outcome :
    (f : Formats) (env : RotationEnv) (a : Active) (s : Files)
    → s.active ≡ a
    → IsAscending s.archives
    → Outcome f s (rotate_active f env a s)
rotate_active-Outcome f env missing s was order = inl refl
rotate_active-Outcome f env blank s was order = inl refl
rotate_active-Outcome f env (present db) s was order = rotate_full-Outcome f env db s was order

-- A rotation, whatever it meets, leaves every file as it is, or succeeds and archives the whole
-- active database: under a number that no file or link had and that is larger than all others,
-- with an empty database in its place, dropping archives from the oldest end only, down to the
-- configured count and no further. The hypothesis: the archives are in the order of their numbers.
pub rotate_cases :
    (f : Formats) (env : RotationEnv) (s : Files)
    → IsAscending s.archives
    → ((rotate f env s).1 ≡ s)
      ⊎ ((n : ℕ) × ((rotate f env s).0 ≡ ok (some n)) × Rotated f s n (rotate f env s).1)
unfolding rotate
rotate_cases f env s order =
    Outcome-if (rotation_limit s.config == 0 || is_missing s.active) (λ _. inl refl)
      (λ _.
        Outcome-if (ltb env.size (rotation_limit s.config)) (λ _. inl refl)
          (λ _. rotate_active-Outcome f env s.active s refl order))
