-- ===== src/Timescale/Hosts.antt =====
-- Which connection strings `TimescaleDBStorage` of src/dbus_event_log/storage.py accepts.
use Prim.Native.Char.{code, Char, char}
use Prim.Native.String.{◌++◌ as str_append}
use text.Mathlib.TextLemmas.{cons-append, nil-append, append-nil}
use text.Mathlib.TextEquality.{Char-path}
use dbus_event_log.Prelude.{
  ℕ, ◌≡◌, ◌⊎◌, refl, sym, ap, ◌∙◌, String, Bool, true, false, not, ◌&&◌, Option, none, some, List,
  [], ◌∷◌, All, Bool-cases, inl, inr, arith, ◌==◌, ==_iff,
}
use dbus_event_log.Text.{
  has_char, before_char, from_char, starts_with_char, tail, is_empty, before-from_char,
  from_char-starts,
}
use dbus_event_log.Timescale.{address_of, is_explicit, all_explicit}

-- A decoded address that is no path of a socket.
abbrev pub IsTcp : String → Type 0
IsTcp address = (is_empty address ≡ false) × (starts_with_char b'/' address ≡ false)

-- A host shows its address in brackets, or up to a colon.
pub data Shows (host address : String) : Type 0 where
  bracketed :
      (rest : String)
      → host ≡ str_append "[" (str_append address rest)
      → starts_with_char b']' rest ≡ true
      → Shows host address
  named :
      (rest : String)
      → host ≡ str_append address rest
      → (is_empty rest ≡ true) ⊎ (starts_with_char b':' rest ≡ true)
      → Shows host address

has-from_char :
    (c : ℕ) (s : String) → has_char c s ≡ true → starts_with_char c (from_char c s) ≡ true
unfolding has_char from_char
has-from_char c String.[] h = absurd (ground (arith, h))
has-from_char c (String.◌∷◌ d s) h = elim (Bool-cases (code d == c)) [
  | inl e ↦ rw e e
  | inr e ↦ rw e (has-from_char c s (ground arith))
]

tested : (a b : Bool) → (not a && not b) ≡ true → (a ≡ false) × (b ≡ false)
tested a b h = (ground arith, ground arith)

head_bracket :
    (host : String) → starts_with_char b'[' host ≡ true → host ≡ str_append "[" (tail host)
head_bracket String.[] h = absurd (ground (arith, h))
head_bracket (String.◌∷◌ d s) h =
    ap (λ (x : Char). String.◌∷◌ x s) (Char-path d (char b'[' tt) ((==_iff (code d) b'[').0 h))
    ∙ sym (
        cons-append (char b'[' tt) String.[] s
        ∙ ap (λ t. String.◌∷◌ (char b'[' tt) t) (nil-append s))

rest_shape :
    (rest : String)
    → (is_empty rest ≡ false → starts_with_char b':' rest ≡ true)
    → (is_empty rest ≡ true) ⊎ (starts_with_char b':' rest ≡ true)
rest_shape String.[] h = inl refl
rest_shape (String.◌∷◌ d s) h = inr (h refl)

address_of-Shows : (host address : String) → address_of host ≡ some address → Shows host address
unfolding address_of
address_of-Shows host address h = elim (Bool-cases (starts_with_char b'[' host)) [
  | inl bracket ↦ elim (Bool-cases (has_char b']' (tail host))) [
    | inl closed ↦
        let e : before_char b']' (tail host) ≡ address = ground (arith, h, bracket, closed) in
        bracketed (from_char b']' (tail host))
          (head_bracket host bracket
            ∙ ap (str_append "[") (sym (before-from_char b']' (tail host)))
            ∙ ap (λ a. str_append "[" (str_append a (from_char b']' (tail host)))) e)
          (has-from_char b']' (tail host) closed)
    | inr unclosed ↦ absurd (ground (arith, h, bracket, unclosed))
  ]
  | inr plain ↦ elim (Bool-cases (starts_with_char b'/' host)) [
    | inl slash ↦
        let e : host ≡ address = ground (arith, h, plain, slash) in
        named String.[] (e ∙ sym (append-nil address)) (inl refl)
    | inr name ↦
        let e : before_char b':' host ≡ address = ground (arith, h, plain, name) in
        named (from_char b':' host)
          (sym (before-from_char b':' host) ∙ ap (λ a. str_append a (from_char b':' host)) e)
          (rest_shape (from_char b':' host) (from_char-starts b':' host))
  ]
]

-- A host of a TCP destination: it shows an address that, decoded, is none of a socket.
abbrev pub IsHost : (String → String) → String → Type 0
IsHost decode host = (address : String) × Shows host address × IsTcp (decode address)

is_explicit-IsHost :
    (decode : String → String) (host : String) → is_explicit decode host ≡ true → IsHost decode host
unfolding is_explicit
is_explicit-IsHost decode host h = by_address (address_of host) refl h
  where
    by_address :
        (o : Option String)
        → address_of host ≡ o
        → elim o [
          | none ↦ false
          | some address ↦
              not (is_empty (decode address)) && not (starts_with_char b'/' (decode address))
        ]
          ≡ true
        → IsHost decode host
    by_address none e t = absurd (ground (arith, t))
    by_address (some address) e t = (
      address,
      address_of-Shows host address e,
      tested (is_empty (decode address)) (starts_with_char b'/' (decode address)) t,
    )

pub all_explicit-IsHost :
    (decode : String → String) (hosts : List String)
    → all_explicit decode hosts ≡ true
    → All (IsHost decode) hosts
unfolding all_explicit
all_explicit-IsHost decode [] h = tt
all_explicit-IsHost decode (x ∷ rest) h =
    let both = conjuncts (is_explicit decode x) (all_explicit decode rest) h in
    (is_explicit-IsHost decode x both.0, all_explicit-IsHost decode rest both.1)
  where
    conjuncts : (a b : Bool) → (a && b) ≡ true → (a ≡ true) × (b ≡ true)
    conjuncts a b t = (ground arith, ground arith)
