-- ===== src/Publisher/Topics.antt =====
-- The topics of src/dbus_event_log/mqtt_publisher.py and the services that they stand for.
use Prim.Native.Char.{code, char, Char}
use text.Mathlib.TextEquality.{Char-path}
use dbus_event_log.Prelude.{
  ℕ, ◌≡◌, refl, String, Bool, true, false, ◌||◌, ◌==◌, if◌then◌else◌, arith, ap, ◌∙◌, sym,
  Bool-cases, inl, inr,
}
use dbus_event_log.Publisher.{service_path}

-- A bus name has no slash.
abbrev pub has_slash : String → Bool
has_slash String.[] = false
has_slash (String.◌∷◌ c s) = code c == b'/' || has_slash s

abbrev is_nil : String → Bool
is_nil String.[] = true
is_nil (String.◌∷◌ c s) = false

abbrev head_code : String → ℕ
head_code String.[] = 0
head_code (String.◌∷◌ c s) = code c

abbrev tail : String → String
tail String.[] = String.[]
tail (String.◌∷◌ c s) = s

abbrev separated : Char → Char
separated c = if code c == b'.' then char b'/' tt else c

code-separated : (c : Char) → code (separated c) ≡ (if code c == b'.' then b'/' else code c)
code-separated c = elim (Bool-cases (code c == b'.')) [ inl e ↦ rw e refl | inr e ↦ rw e refl ]

separated_injective :
    (c d : Char)
    → (code c == b'/') ≡ false
    → (code d == b'/') ≡ false
    → code (separated c) ≡ code (separated d)
    → code c ≡ code d
separated_injective c d hc hd e =
    let f : (if code c == b'.' then b'/' else code c) ≡ (if code d == b'.' then b'/' else code d) =
      sym (code-separated c) ∙ e ∙ code-separated d in
    numbers (code c) (code d) hc hd f
  where
    numbers :
        (m n : ℕ)
        → (m == b'/') ≡ false
        → (n == b'/') ≡ false
        → (if m == b'.' then b'/' else m) ≡ (if n == b'.' then b'/' else n)
        → m ≡ n
    numbers m n hm hn h = ground (arith, hm, hn, h)

-- Two services without a slash in their names, as bus names are, have the same part of the topic
-- only if they are the same.
service_path_injective :
    (a b : String)
    → has_slash a ≡ false
    → has_slash b ≡ false
    → service_path a ≡ service_path b
    → a ≡ b
unfolding service_path
service_path_injective String.[] String.[] ha hb e = refl
service_path_injective String.[] (String.◌∷◌ d b) ha hb e = absurd (ground (arith, ap is_nil e))
service_path_injective (String.◌∷◌ c a) String.[] ha hb e = absurd (ground (arith, ap is_nil e))
service_path_injective (String.◌∷◌ c a) (String.◌∷◌ d b) ha hb e =
    let hc = no_slash (code c == b'/') (has_slash a) ha in
    let hd = no_slash (code d == b'/') (has_slash b) hb in
    ap (λ x. String.◌∷◌ x a) (Char-path c d (separated_injective c d hc.0 hd.0 (ap head_code e)))
    ∙ ap (λ s. String.◌∷◌ d s) (service_path_injective a b hc.1 hd.1 (ap tail e))
  where
    no_slash : (x y : Bool) → (x || y) ≡ false → (x ≡ false) × (y ≡ false)
    no_slash false y h = (refl, h)
    no_slash true y h = absurd (ground (arith, h))
