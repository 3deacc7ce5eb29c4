-- ===== src/Text.antt =====
-- Python's `str.partition` and `str.split` at one character, as src/dbus_event_log/storage.py and
-- src/dbus_event_log/cli.py use them.
use Prim.Native.Char.{code, Char}
use Prim.Native.String.{◌++◌ as str_append}
use text.Mathlib.TextLemmas.{nil-append, cons-append}
use dbus_event_log.Prelude.{
  ℕ, ◌≡◌, refl, ap, ◌∙◌, String, Bool, true, false, ◌||◌, List, [], ◌∷◌, ◌==◌, Bool-cases, inl, inr,
  if◌then◌else◌, arith,
}

-- `c in s`
unfoldable pub has_char : ℕ → String → Bool
has_char c String.[] = false
has_char c (String.◌∷◌ d s) = code d == c || has_char c s

-- `s.partition(c)[0]`
unfoldable pub before_char : ℕ → String → String
before_char c String.[] = String.[]
before_char c (String.◌∷◌ d s) =
    let rest = String.◌∷◌ d (before_char c s) in if code d == c then String.[] else rest

-- `s.partition(c)[2]`
unfoldable pub after_char : ℕ → String → String
after_char c String.[] = String.[]
after_char c (String.◌∷◌ d s) = let rest = after_char c s in if code d == c then s else rest

abbrev pub push_char : Char → List String → List String
push_char d [] = String.◌∷◌ d String.[] ∷ []
push_char d (s ∷ rest) = String.◌∷◌ d s ∷ rest

-- `s.split(c)`
unfoldable pub split : ℕ → String → List String
split c String.[] = String.[] ∷ []
split c (String.◌∷◌ d s) =
    let rest = split c s in if code d == c then String.[] ∷ rest else push_char d rest

-- `s.startswith(c)`
abbrev pub starts_with_char : ℕ → String → Bool
starts_with_char c String.[] = false
starts_with_char c (String.◌∷◌ d s) = code d == c

-- `s[1:]`
abbrev pub tail : String → String
tail String.[] = String.[]
tail (String.◌∷◌ d s) = s

-- `not s`
abbrev pub is_empty : String → Bool
is_empty String.[] = true
is_empty (String.◌∷◌ d s) = false

-- The text after the first separator, with it: what `partition` puts beside its first part.
unfoldable pub from_char : ℕ → String → String
from_char c String.[] = String.[]
from_char c (String.◌∷◌ d s) =
    let rest = from_char c s in if code d == c then String.◌∷◌ d s else rest

-- `partition` takes a text apart without loss.
pub before-from_char : (c : ℕ) (s : String) → str_append (before_char c s) (from_char c s) ≡ s
unfolding before_char from_char
before-from_char c String.[] = nil-append String.[]
before-from_char c (String.◌∷◌ d s) = elim (Bool-cases (code d == c)) [
  | inl e ↦ rw e (nil-append (String.◌∷◌ d s))
  | inr e ↦ rw e (
      cons-append d (before_char c s) (from_char c s)
      ∙ ap (λ t. String.◌∷◌ d t) (before-from_char c s))
]

pub from_char-starts :
    (c : ℕ) (s : String)
    → is_empty (from_char c s) ≡ false
    → starts_with_char c (from_char c s) ≡ true
unfolding from_char
from_char-starts c String.[] h = absurd (ground (arith, h))
from_char-starts c (String.◌∷◌ d s) h = elim (Bool-cases (code d == c)) [
  | inl e ↦ rw e e
  | inr e ↦ rw e (from_char-starts c s (ground arith))
]

pub has-before_char : (c : ℕ) (s : String) → has_char c (before_char c s) ≡ false
unfolding has_char before_char
has-before_char c String.[] = refl
has-before_char c (String.◌∷◌ d s) = elim (Bool-cases (code d == c)) [
  | inl e ↦ rw e refl
  | inr e ↦ rw (e, has_char) (rw (e, has-before_char c s) refl)
]
