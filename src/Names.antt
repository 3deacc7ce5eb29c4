-- ===== src/Names.antt =====
-- Matching of bus names against the configured services: the test that
-- src/dbus_event_log/method_capture.py (`_matches`) and src/dbus_event_log/monitor.py
-- (`_handle_name_owner_change`, `_subscribe_to_service`) make, and what it selects.
use Prim.Native.Char.{code, char}
use Prim.Native.String.{◌++◌ as str_append}
use text.Mathlib.Text.{starts_with}
use text.Mathlib.TextEquality.{starts_with_iff, Char-path}
use text.Mathlib.TextLemmas.{nil-append, cons-append}
use dbus_event_log.Prelude.{
  String, Bool, false, true, ◌&&◌, ◌||◌, List, any, ◌==◌, str_eq, ◌≡◌, refl, [], ◌∷◌, ◌↔◌, inl, inr,
  eq_iff, arith, Bool-cases, ap, ==_iff, sym, or_iff,
}

-- `s.endswith("*")`
unfoldable pub ends_with_star : String → Bool
ends_with_star String.[] = false
ends_with_star (String.◌∷◌ c String.[]) = code c == b'*'
ends_with_star (String.◌∷◌ c (String.◌∷◌ d s)) = ends_with_star (String.◌∷◌ d s)

-- `s[:-1]`
unfoldable pub drop_last : String → String
drop_last String.[] = String.[]
drop_last (String.◌∷◌ c String.[]) = String.[]
drop_last (String.◌∷◌ c (String.◌∷◌ d s)) = String.◌∷◌ c (drop_last (String.◌∷◌ d s))

-- `name == pattern or (pattern.endswith("*") and name.startswith(pattern[:-1]))`
unfoldable pub pattern_matches : String → String → Bool
unfolding ends_with_star drop_last
pattern_matches name pattern =
    str_eq name pattern || (ends_with_star pattern && starts_with name (drop_last pattern))

-- `any(... for pattern in services)`
unfoldable pub name_selected : List String → String → Bool
unfolding pattern_matches
name_selected services name = any (pattern_matches name) services

-- A pattern is a name, or a prefix followed by a star.
pub data Fits (name pattern : String) : Type 0 where
  exact : name ≡ pattern → Fits name pattern
  prefixed :
      (start rest : String)
      → pattern ≡ str_append start "*"
      → name ≡ str_append start rest
      → Fits name pattern

star_at_end : (s : String) → ends_with_star s ≡ true → s ≡ str_append (drop_last s) "*"
unfolding ends_with_star drop_last
star_at_end String.[] h = ground arith
star_at_end (String.◌∷◌ c String.[]) h =
    rw (Char-path c (char 42 tt) ((==_iff (code c) 42).0 h), nil-append "*") refl
star_at_end (String.◌∷◌ c (String.◌∷◌ d s)) h =
    rw (cons-append c (drop_last (String.◌∷◌ d s)) "*")
      (ap (String.◌∷◌ c) (star_at_end (String.◌∷◌ d s) h))

ends_with_star-append :
    (s : String) → (ends_with_star (str_append s "*") ≡ true) × (drop_last (str_append s "*") ≡ s)
unfolding ends_with_star drop_last
ends_with_star-append String.[] = (refl, refl)
ends_with_star-append (String.◌∷◌ c String.[]) = rw (cons-append c "" "*") (refl, refl)
ends_with_star-append (String.◌∷◌ c (String.◌∷◌ d s)) =
    let ih = ends_with_star-append (String.◌∷◌ d s) in
    let ih' = rw (cons-append d s "*") at ih in
    rw (cons-append c (String.◌∷◌ d s) "*", cons-append d s "*") (ih'.0, ap (String.◌∷◌ c) ih'.1)

-- The test decides whether the pattern fits the name.
pattern_matches_iff :
    (name pattern : String) → (pattern_matches name pattern ≡ true) ↔ Fits name pattern
unfolding pattern_matches
pattern_matches_iff name pattern = (sound, complete)
  where
    sound : pattern_matches name pattern ≡ true → Fits name pattern
    sound h = elim (Bool-cases (str_eq name pattern)) [
      | inl same ↦ exact ((eq_iff name pattern).0 same)
      | inr other ↦
          let star : ends_with_star pattern ≡ true = ground arith in
          let begins : starts_with name (drop_last pattern) ≡ true = ground arith in
          let (rest, e) = (starts_with_iff name (drop_last pattern)).0 begins in
          prefixed (drop_last pattern) rest (star_at_end pattern star) (sym e)
    ]

    complete : Fits name pattern → pattern_matches name pattern ≡ true
    complete (exact e) = ground (arith, (eq_iff name pattern).1 e)
    complete (prefixed start rest p n) =
        let star = ends_with_star-append start in
        let begins = (starts_with_iff name start).1 (rest, sym n) in
        rw p (ground (arith, star, begins))

-- Some pattern of the list fits.
pub data Selected (name : String) : List String → Type 0 where
  here :
      {pattern : String} {rest : List String} → Fits name pattern → Selected name (pattern ∷ rest)
  there :
      {pattern : String} {rest : List String} → Selected name rest → Selected name (pattern ∷ rest)

-- The test of a name against the configured services selects exactly the names that are equal to
-- a pattern or extend the prefix of a starred one.
pub name_selected_iff :
    (services : List String) (name : String)
    → (name_selected services name ≡ true) ↔ Selected name services
unfolding name_selected
name_selected_iff services name = (sound services, complete)
  where
    sound : (l : List String) → any (pattern_matches name) l ≡ true → Selected name l
    sound [] h = cc
    sound (p ∷ l) h = elim ((or_iff (pattern_matches name p) (any (pattern_matches name) l)).0 h) [
      | inl now ↦ here ((pattern_matches_iff name p).0 now)
      | inr later ↦ there (sound l later)
    ]

    complete : {l : List String} → Selected name l → any (pattern_matches name) l ≡ true
    complete (here {pattern} {rest} f) = rw ((pattern_matches_iff name pattern).1 f)
    complete (there {pattern} {rest} s) =
        (or_iff (pattern_matches name pattern) (any (pattern_matches name) rest)).1
          (inr (complete s))

selects_prefix : name_selected ("com.victronenergy.*" ∷ []) "com.victronenergy.battery" ≡ true
unfolding name_selected
selects_prefix = refl

rejects_other : name_selected ("com.victronenergy.*" ∷ []) "org.freedesktop.Avahi" ≡ false
unfolding name_selected
rejects_other = refl
