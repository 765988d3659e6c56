-- ===== src/Extract/Escape.antt =====
-- _copy_text_escape of tools/wiki_extract.py, and PostgreSQL's reading of a text column.
use tridb.Base.{
  sym, ap, ◌∙◌, ℕ, ◌≡◌, refl, Bool, true, false, ◌||◌, [], ◌∷◌, ◌++◌, ◌==◌, if◌then◌else◌,
  Bool-cases, inl, inr, ==_iff, All, All-append,
}
use mathlib.Core.Path.{subst}
use tridb.Base.Text.{Text}

-- field.replace(c, by)
abbrev pub replace : ℕ → Text → Text → Text
replace c by [] = []
replace c by (x ∷ rest) = let later = replace c by rest in if x == c then by ++ later else x ∷ later

unfoldable pub copy_text_escape : Text → Text
copy_text_escape field = replace b'\r' (b'\\' ∷ b'r' ∷ []) (
    replace b'\n' (b'\\' ∷ b'n' ∷ [])
      (replace b'\t' (b'\\' ∷ b't' ∷ []) (replace b'\\' (b'\\' ∷ b'\\' ∷ []) field)))

-- What a character after a backslash stands for.
abbrev pub escaped : ℕ → ℕ
escaped c = if c == b't' then b'\t' else if c == b'n' then b'\n' else if c == b'r' then b'\r' else c

-- COPY ... (FORMAT text) reads a column: `after` tells that a backslash came before.
abbrev pub copy_text_read : Bool → Text → Text
copy_text_read after [] = []
copy_text_read after (c ∷ rest) =
    let plain = copy_text_read false rest in
    let next = copy_text_read true rest in
    if after then escaped c ∷ plain else if c == b'\\' then next else c ∷ plain

-- One character, escaped.
abbrev escape_one : ℕ → Text
escape_one c =
    if c == b'\\'
    then b'\\' ∷ b'\\' ∷ []
    else if c == b'\t'
    then b'\\' ∷ b't' ∷ []
    else if c == b'\n'
    then b'\\' ∷ b'n' ∷ []
    else if c == b'\r'
    then b'\\' ∷ b'r' ∷ []
    else c ∷ []

copy_text_escape-first :
    (c : ℕ) (rest : Text) → copy_text_escape (c ∷ rest) ≡ escape_one c ++ copy_text_escape rest
unfolding copy_text_escape
copy_text_escape-first c rest = elim (Bool-cases (c == b'\\')) [
  | inl a ↦ rw a refl
  | inr a ↦ elim (Bool-cases (c == b'\t')) [
    | inl b ↦ rw (a, b) refl
    | inr b ↦ elim (Bool-cases (c == b'\n')) [
      | inl d ↦ rw (a, b, d) refl
      | inr d ↦ elim (Bool-cases (c == b'\r')) [
        | inl e ↦ rw (a, b, d, e) refl
        | inr e ↦ rw (a, b, d, e) refl
      ]
    ]
  ]
]

copy_text_read-escape_one :
    (c : ℕ) (rest : Text)
    → copy_text_read false (escape_one c ++ rest) ≡ c ∷ copy_text_read false rest
copy_text_read-escape_one c rest = elim (Bool-cases (c == b'\\')) [
  | inl a ↦ rw a (ap (λ x. x ∷ copy_text_read false rest) (sym ((==_iff c _).0 a)))
  | inr a ↦ elim (Bool-cases (c == b'\t')) [
    | inl b ↦ rw (a, b) (ap (λ x. x ∷ copy_text_read false rest) (sym ((==_iff c _).0 b)))
    | inr b ↦ elim (Bool-cases (c == b'\n')) [
      | inl d ↦ rw (a, b, d) (ap (λ x. x ∷ copy_text_read false rest) (sym ((==_iff c _).0 d)))
      | inr d ↦ elim (Bool-cases (c == b'\r')) [
        | inl e ↦ rw (a, b, d, e) (ap (λ x. x ∷ copy_text_read false rest) (sym ((==_iff c _).0 e)))
        | inr e ↦ rw (a, b, d, e, a) refl
      ]
    ]
  ]
]

abbrev pub IsPlain : ℕ → Type 0
IsPlain c = (c == b'\t' || c == b'\n' || c == b'\r') ≡ false

escape_one-IsPlain : (c : ℕ) → All IsPlain (escape_one c)
escape_one-IsPlain c = elim (Bool-cases (c == b'\\')) [
  | inl a ↦ rw a (refl, (refl, tt))
  | inr a ↦ elim (Bool-cases (c == b'\t')) [
    | inl b ↦ rw (a, b) (refl, (refl, tt))
    | inr b ↦ elim (Bool-cases (c == b'\n')) [
      | inl d ↦ rw (a, b, d) (refl, (refl, tt))
      | inr d ↦ elim (Bool-cases (c == b'\r')) [
        | inl e ↦ rw (a, b, d, e) (refl, (refl, tt))
        | inr e ↦ rw (a, b, d, e) (rw (b, d, e) refl, tt)
      ]
    ]
  ]
]

-- What is written for a text column reads back as it was, and holds no tab, line feed or carriage
-- return, whatever the text.
pub copy_text_read-copy_text_escape :
    (field : Text)
    → (copy_text_read false (copy_text_escape field) ≡ field) × All IsPlain (copy_text_escape field)
unfolding copy_text_escape
copy_text_read-copy_text_escape [] = (refl, tt)
copy_text_read-copy_text_escape (c ∷ rest) =
    let first = copy_text_escape-first c rest in
    let (read, plain) = copy_text_read-copy_text_escape rest in
    (
      ap (copy_text_read false) first
          ∙ copy_text_read-escape_one c (copy_text_escape rest)
          ∙ ap (λ t. c ∷ t) read,
      subst (All IsPlain) (sym first)
          (All-append IsPlain (escape_one c) (copy_text_escape rest) (escape_one-IsPlain c) plain),
    )
