-- ===== src/Prelude/Keys.antt =====
-- Keys of dictionaries: types with a Boolean equality that decides paths.
use Prim.Native.Nat.{ℕ}
use Prim.Native.String.{String}
use mathlib.Core.Path.{◌≡◌, ap}
use mathlib.Core.Logic.{◌↔◌}
use mathlib.Core.Bool.{Bool, false, true, ◌&&◌}
use mathlib.Core.Option.{Option, none, some}
use native.Mathlib.Omega.{arith}
use text.Mathlib.Text.{◌==◌ as str_beq}
use text.Mathlib.TextEquality.{eq_iff}
use dbus_event_log.Prelude.Tests.{◌==◌, ==_iff}

pub record Eq {ℓ} (A : Type ℓ) : Type ℓ where
  pub beq : A → A → Bool
  pub beq_iff : (a b : A) → (beq a b ≡ true) ↔ (a ≡ b)

-- Equality of names, and of the other texts that the program compares.
abbrev pub str_eq : String → String → Bool
str_eq = str_beq

instance abbrev pub string_eq : Eq String
string_eq = record { beq = str_beq; beq_iff = eq_iff }

instance abbrev pub nat_eq : Eq ℕ
nat_eq = record { beq = ◌==◌; beq_iff = ==_iff }

abbrev pub pair_beq : String × ℕ → String × ℕ → Bool
pair_beq (s, n) (t, m) = str_beq s t && n == m

pub pair_beq_iff : (p q : String × ℕ) → (pair_beq p q ≡ true) ↔ (p ≡ q)
pair_beq_iff (s, n) (t, m) = ground (arith, eq_iff s t)

instance abbrev pub pair_eq : Eq (String × ℕ)
pair_eq = record { beq = pair_beq; beq_iff = pair_beq_iff }

-- A header field that may be absent, compared with a name.
abbrev pub is_text : Option String → String → Bool
is_text none s = false
is_text (some t) s = str_beq t s

-- `x or ""`
abbrev pub or_empty : Option String → String
or_empty none = ""
or_empty (some s) = s

pub is_text-eq : (o : Option String) (s : String) → is_text o s ≡ true → o ≡ some s
is_text-eq none s h = cc
is_text-eq (some t) s h = ap some ((eq_iff t s).0 h)
