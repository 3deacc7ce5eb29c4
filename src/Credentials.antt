-- ===== src/Credentials.antt =====
-- src/dbus_event_log/credentials.py: reading a password file. Bytes and code points are numbers;
-- the decoding of UTF-8 is Python's and an argument, as is what opening the file gives.
use dbus_event_log.Prelude.{
  ℕ, zero, suc, ◌+◌, ◌≤◌, ◌≡◌, refl, subst, ap, sym, ◌∙◌, ◌↔◌, inl, inr, ◌≢◌, Bool, true, false,
  not, ◌&&◌, ◌||◌, ◌==◌, Option, none, some, List, [], ◌∷◌, ◌++◌, any, length, take, ltb,
  if◌then◌else◌, arith, Bool-cases, guarded, some_injective, ==_iff,
}

-- An opened file: what `fstat` says and the bytes that reading gives.
pub record PasswordFile : Type 0 where
  pub is_regular : Bool
  pub size : ℕ
  pub content : List ℕ

-- `MAX_PASSWORD_FILE_BYTES`
abbrev pub max_password_file_bytes : ℕ
max_password_file_bytes = 4096

-- One line ending goes: `\r\n` or else `\n`.
unfoldable pub strip_line_ending : List ℕ → List ℕ
strip_line_ending [] = []
strip_line_ending (c ∷ []) = if c == b'\n' then [] else c ∷ []
strip_line_ending (c ∷ d ∷ []) =
    if c == b'\r' && d == b'\n' then [] else if d == b'\n' then c ∷ [] else c ∷ d ∷ []
strip_line_ending (c ∷ d ∷ e ∷ rest) = c ∷ strip_line_ending (d ∷ e ∷ rest)

-- `char in password for char in ("\x00", "\r", "\n")`
abbrev pub is_forbidden : ℕ → Bool
is_forbidden c = c == 0 || c == b'\r' || c == b'\n'

abbrev pub checked : List ℕ → Option (List ℕ)
checked [] = none
checked (c ∷ rest) = if any is_forbidden (c ∷ rest) then none else some (c ∷ rest)

abbrev decoded : Option (List ℕ) → Option (List ℕ)
decoded none = none
decoded (some text) = checked (strip_line_ending text)

abbrev read_opened : (List ℕ → Option (List ℕ)) → PasswordFile → Option (List ℕ)
read_opened utf8 file =
    if not file.is_regular || ltb max_password_file_bytes file.size
    then none
    else let raw = take (max_password_file_bytes + 1) file.content in
      if ltb max_password_file_bytes (length raw) then none else decoded (utf8 raw)

-- `read_password_file`: `none` is the ValueError that every failure ends in.
unfoldable pub read_password_file :
    (List ℕ → Option (List ℕ)) → Option PasswordFile → Option (List ℕ)
read_password_file utf8 none = none
read_password_file utf8 (some file) = read_opened utf8 file

-- The text is the password, alone or with one line ending.
pub data IsLine (password : List ℕ) : List ℕ → Type 0 where
  bare : IsLine password password
  unix : IsLine password (password ++ b'\n' ∷ [])
  dos : IsLine password (password ++ b'\r' ∷ b'\n' ∷ [])

extend : (c : ℕ) {p t : List ℕ} → IsLine p t → IsLine (c ∷ p) (c ∷ t)
extend c bare = bare
extend c unix = unix
extend c dos = dos

stripped-IsLine : (t : List ℕ) → IsLine (strip_line_ending t) t
unfolding strip_line_ending
stripped-IsLine [] = bare
stripped-IsLine (c ∷ []) = elim (Bool-cases (c == b'\n')) [
  | inl e ↦ rw ((==_iff c _).0 e) unix
  | inr e ↦ rw e bare
]
stripped-IsLine (c ∷ d ∷ []) = elim (Bool-cases (d == b'\n')) [
  | inl e ↦ elim (Bool-cases (c == b'\r')) [
    | inl e' ↦ rw ((==_iff d _).0 e, (==_iff c _).0 e') dos
    | inr e' ↦ rw ((==_iff d _).0 e, e') unix
  ]
  | inr e ↦ elim (Bool-cases (c == b'\r')) [ inl e' ↦ rw (e, e') bare | inr e' ↦ rw (e, e') bare ]
]
stripped-IsLine (c ∷ d ∷ e ∷ rest) = extend c (stripped-IsLine (d ∷ e ∷ rest))

strip-bare : (p : List ℕ) → any is_forbidden p ≡ false → strip_line_ending p ≡ p
unfolding strip_line_ending
strip-bare [] clean = refl
strip-bare (c ∷ []) clean = ground (arith, clean)
strip-bare (c ∷ d ∷ []) clean = ground (arith, clean)
strip-bare (c ∷ d ∷ e ∷ rest) clean =
    ap (λ t. c ∷ t) (strip-bare (d ∷ e ∷ rest) (ground (arith, clean)))

strip-unix : (p : List ℕ) → any is_forbidden p ≡ false → strip_line_ending (p ++ b'\n' ∷ []) ≡ p
unfolding strip_line_ending
strip-unix [] clean = refl
strip-unix (c ∷ []) clean = ground (arith, clean)
strip-unix (c ∷ d ∷ []) clean = ap (λ t. c ∷ t) (strip-unix (d ∷ []) (ground (arith, clean)))
strip-unix (c ∷ d ∷ e ∷ rest) clean =
    ap (λ t. c ∷ t) (strip-unix (d ∷ e ∷ rest) (ground (arith, clean)))

strip-dos :
    (p : List ℕ) → any is_forbidden p ≡ false → strip_line_ending (p ++ b'\r' ∷ b'\n' ∷ []) ≡ p
unfolding strip_line_ending
strip-dos [] clean = refl
strip-dos (c ∷ []) clean = refl
strip-dos (c ∷ d ∷ []) clean = ap (λ t. c ∷ t) (strip-dos (d ∷ []) (ground (arith, clean)))
strip-dos (c ∷ d ∷ e ∷ rest) clean =
    ap (λ t. c ∷ t) (strip-dos (d ∷ e ∷ rest) (ground (arith, clean)))

strip-IsLine : (p t : List ℕ) → any is_forbidden p ≡ false → IsLine p t → strip_line_ending t ≡ p
strip-IsLine p t clean bare = strip-bare p clean
strip-IsLine p t clean unix = strip-unix p clean
strip-IsLine p t clean dos = strip-dos p clean

-- What a password file must be: a regular file of at most 4096 bytes, both by its size and by what
-- is read, whose text is the password, nonempty and without a NUL or a line ending, alone or with
-- one line ending after it.
pub record Readable (utf8 : List ℕ → Option (List ℕ)) (file : PasswordFile) (p : List ℕ)
    : Type 0 where
  pub regular : file.is_regular ≡ true
  pub size_fits : file.size ≤ max_password_file_bytes
  pub content_fits : length file.content ≤ max_password_file_bytes
  pub text : List ℕ
  pub decodes : utf8 file.content ≡ some text
  pub line : IsLine p text
  pub nonempty : p ≢ []
  pub clean : any is_forbidden p ≡ false

take_all : (n : ℕ) (xs : List ℕ) → length xs ≤ n → take n xs ≡ xs
take_all zero [] h = refl
take_all zero (x ∷ xs) h = absurd (omega (arith, h))
take_all (suc n) [] h = refl
take_all (suc n) (x ∷ xs) h = ap (λ t. x ∷ t) (take_all n xs (omega (arith, h)))

take_short : (n : ℕ) (xs : List ℕ) → length (take (suc n) xs) ≤ n → length xs ≤ n
take_short zero [] h = h
take_short zero (x ∷ xs) h = absurd (omega (arith, h))
take_short (suc n) [] h = omega arith
take_short (suc n) (x ∷ xs) h = omega (arith, take_short n xs (omega (arith, h)))

ltb-false : {a b : ℕ} → ltb a b ≡ false → b ≤ a
ltb-false h = ground arith

not-ltb : {a b : ℕ} → b ≤ a → ltb a b ≡ false
not-ltb h = ground arith

checked_text :
    (t p : List ℕ) → checked t ≡ some p → (t ≡ p) × (p ≢ []) × (any is_forbidden p ≡ false)
checked_text [] p e = absurd (ground (arith, e))
checked_text (c ∷ rest) p e =
    let passed = guarded (any is_forbidden (c ∷ rest)) e in
    let same = some_injective passed.1 in
    (
      same,
      subst (λ q. q ≢ []) same (λ h. absurd (ground (arith, h))),
      subst (λ q. any is_forbidden q ≡ false) same passed.0,
    )

checked-clean : (p : List ℕ) → p ≢ [] → any is_forbidden p ≡ false → checked p ≡ some p
checked-clean [] h clean = absurd (h refl)
checked-clean (c ∷ rest) h clean = rw clean refl

decoded_text :
    (o : Option (List ℕ)) (p : List ℕ)
    → decoded o ≡ some p
    → (t : List ℕ) × (o ≡ some t) × IsLine p t × (p ≢ []) × (any is_forbidden p ≡ false)
decoded_text none p e = absurd (ground (arith, e))
decoded_text (some t) p e =
    let text = checked_text (strip_line_ending t) p e in
    (t, refl, subst (λ q. IsLine q t) text.0 (stripped-IsLine t), text.1, text.2)

file_test : (a b : Bool) → (not a || b) ≡ false → (a ≡ true) × (b ≡ false)
file_test true false e = (refl, refl)
file_test true true e = absurd (ground (arith, e))
file_test false b e = absurd (ground (arith, e))

-- A read succeeds exactly on the files that are what a password file must be, and gives the
-- password.
pub read_password_file_iff :
    (utf8 : List ℕ → Option (List ℕ)) (file : PasswordFile) (p : List ℕ)
    → (read_password_file utf8 (some file) ≡ some p) ↔ Readable utf8 file p
unfolding read_password_file
read_password_file_iff utf8 file p = (sound, complete)
  where
    sound : read_opened utf8 file ≡ some p → Readable utf8 file p
    sound e =
        let file_passed =
          guarded (not file.is_regular || ltb max_password_file_bytes file.size) e in
        let raw = take (max_password_file_bytes + 1) file.content in
        let read_passed = guarded (ltb max_password_file_bytes (length raw)) file_passed.1 in
        let text = decoded_text (utf8 raw) p read_passed.1 in
        let fits = take_short max_password_file_bytes file.content (ltb-false read_passed.0) in
        record {
          regular = (file_test file.is_regular _ file_passed.0).0;
          size_fits = ltb-false (file_test file.is_regular _ file_passed.0).1;
          content_fits = fits;
          text = text.0;
          decodes =
              ap utf8
                (sym (take_all (max_password_file_bytes + 1) file.content (omega (arith, fits))))
              ∙ text.1;
          line = text.2;
          nonempty = text.3;
          clean = text.4;
        }

    complete : Readable utf8 file p → read_opened utf8 file ≡ some p
    complete h =
        rw
          (
            h.regular,
            not-ltb h.size_fits,
            take_all (max_password_file_bytes + 1) file.content (omega (arith, h.content_fits)),
            not-ltb h.content_fits,
            h.decodes,
            strip-IsLine p h.text h.clean h.line,
          )
          (checked-clean p h.nonempty h.clean)
