-- ===== src/Tests/Collation.antt =====
-- An order of texts as SQLite's BINARY collation has it, by code points, for the runs of queries.
use Prim.Native.Char.{code}
use text.Mathlib.TextEquality.{Char-path}
use dbus_event_log.Prelude.{
  ℕ, ◌≡◌, refl, ap, ◌∙◌, String, Bool, true, false, ◌&&◌, ltb, ◌==◌, if◌then◌else◌, arith,
}
use dbus_event_log.Storage.Query.{Sqlite, IsOrder}

pub precedes : String → String → Bool
precedes String.[] String.[] = false
precedes String.[] (String.◌∷◌ d t) = true
precedes (String.◌∷◌ c s) String.[] = false
precedes (String.◌∷◌ c s) (String.◌∷◌ d t) =
    let rest = precedes s t in if ltb (code c) (code d) then true else (code c == code d && rest)

irreflexive : (a : String) → precedes a a ≡ false
unfolding precedes
irreflexive String.[] = refl
irreflexive (String.◌∷◌ c s) = ground (arith, irreflexive s)

transitive : (a b c : String) → precedes a b ≡ true → precedes b c ≡ true → precedes a c ≡ true
unfolding precedes
transitive String.[] String.[] c p q = q
transitive String.[] (String.◌∷◌ y b) String.[] p q = absurd (ground (arith, q))
transitive String.[] (String.◌∷◌ y b) (String.◌∷◌ z c) p q = refl
transitive (String.◌∷◌ x a) String.[] c p q = absurd (ground (arith, p))
transitive (String.◌∷◌ x a) (String.◌∷◌ y b) String.[] p q = absurd (ground (arith, q))
transitive (String.◌∷◌ x a) (String.◌∷◌ y b) (String.◌∷◌ z c) p q = ground (arith, transitive a b c)

same_codes :
    (m n : ℕ) (p q : Bool)
    → (if ltb m n then true else (m == n && p)) ≡ false
    → (if ltb n m then true else (n == m && q)) ≡ false
    → (m ≡ n) × (p ≡ false) × (q ≡ false)
same_codes m n p q e f = (ground arith, ground arith, ground arith)

connected : (a b : String) → precedes a b ≡ false → precedes b a ≡ false → a ≡ b
unfolding precedes
connected String.[] String.[] p q = refl
connected String.[] (String.◌∷◌ y b) p q = absurd (ground (arith, p))
connected (String.◌∷◌ x a) String.[] p q = absurd (ground (arith, q))
connected (String.◌∷◌ x a) (String.◌∷◌ y b) p q =
    let same = same_codes (code x) (code y) (precedes a b) (precedes b a) p q in
    ap (λ z. String.◌∷◌ z a) (Char-path x y same.0)
    ∙ ap (λ t. String.◌∷◌ y t) (connected a b same.1 same.2)

-- `LIKE '%%…%%'` is not exercised: every text is like every pattern.
abbrev pub sqlite : Sqlite
sqlite = record { like = λ pattern text. true; precedes = precedes }

pub sqlite-IsOrder : IsOrder sqlite
sqlite-IsOrder = record {
  irreflexive = irreflexive;
  transitive = transitive;
  connected = connected;
}
