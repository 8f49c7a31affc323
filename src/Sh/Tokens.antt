-- ===== src/Sh/Tokens.antt =====
-- user/sh.c: what `peek` and `gettoken` leave of the text.
use gem_os_extension.Base.{
  ℕ, ◌<◌, ◌≤◌, ◌≡◌, ◌≢◌, ◌⊎◌, inl, inr, refl, sym, ap, ◌∙◌, true, false, Bool-cases, ◌||◌, List, [],
  ◌∷◌, length, ◌==◌, arith,
}
use gem_os_extension.Sh.{
  whitespace, symbols, strchr, skip_white, word, second_sign, token_at, gettoken, starts, peek,
}

pub skip-skip : (s : List ℕ) → skip_white (skip_white s) ≡ skip_white s
skip-skip [] = refl
skip-skip (c ∷ s) = elim (Bool-cases (strchr whitespace c)) [
  | inl white ↦ rw white (skip-skip s)
  | inr black ↦ rw (black, black) refl
]

pub skip-length : (s : List ℕ) → length (skip_white s) ≤ length s
skip-length [] = ground arith
skip-length (c ∷ s) = elim (Bool-cases (strchr whitespace c)) [
  | inl white ↦ rw white (omega (arith, skip-length s))
  | inr black ↦ rw black (omega arith)
]

word-length : (s : List ℕ) → length (word s).1 ≤ length s
word-length [] = ground arith
word-length (c ∷ s) = elim (Bool-cases (strchr whitespace c)) [
  | inl white ↦ rw white (omega arith)
  | inr black ↦ elim (Bool-cases (strchr symbols c)) [
    | inl sign ↦ rw (black, sign) (omega arith)
    | inr plain ↦ rw (black, plain) (omega (arith, word-length s))
  ]
]

second_sign-length : (s : List ℕ) → length (second_sign s).1 ≤ length s
second_sign-length [] = ground arith
second_sign-length (c ∷ s) = elim (Bool-cases (c == b'>')) [
  | inl again ↦ rw again (omega arith)
  | inr other ↦ rw other (omega arith)
]

-- A token that is not the end takes a character.
token_at-length :
    (c : ℕ) (s : List ℕ) → strchr whitespace c ≡ false → length (token_at (c ∷ s)).2 ≤ length s
unfolding token_at
token_at-length c s black =
    elim (Bool-cases (c == b'|' || c == b'(' || c == b')' || c == b';' || c == b'&' || c == b'<')) [
      | inl sign ↦ rw sign (omega arith)
      | inr other ↦ elim (Bool-cases (c == b'>')) [
        | inl greater ↦ rw (other, greater) (second_sign-length s)
        | inr letter ↦
            let plain : strchr symbols c ≡ false = ground (arith, other, letter) in
            rw (other, letter, black, plain) (word-length s)
      ]
    ]

skip-cases :
    (s : List ℕ)
    → (skip_white s ≡ [])
      ⊎ ((c : ℕ) × (t : List ℕ) × (skip_white s ≡ c ∷ t) × (strchr whitespace c ≡ false))
skip-cases [] = inl refl
skip-cases (c ∷ s) = elim (Bool-cases (strchr whitespace c)) [
  | inl white ↦ rw white (skip-cases s)
  | inr black ↦ inr (c, s, rw black refl, black)
]

pub gettoken-length : (s : List ℕ) → skip_white s ≢ [] → length (gettoken s).2 < length s
unfolding gettoken
gettoken-length s more = elim (skip-cases s) [
  | inl e ↦ absurd (more e)
  | inr (c, t, e, black) ↦
      let first : length (skip_white s) ≡ length (c ∷ t) = ap length e in
      let rest : length (token_at (skip_white s)).2 ≡ length (token_at (c ∷ t)).2 =
        ap (λ x. length (token_at x).2) e in
      omega (
        arith,
        first,
        rest,
        skip-length s,
        skip-length (token_at (skip_white s)).2,
        token_at-length c t black,
      )
]

pub gettoken-end : (s : List ℕ) → skip_white s ≡ [] → gettoken s ≡ (0, [], [])
unfolding gettoken token_at
gettoken-end s e = ap (λ x. let (ret, q, rest) = token_at x in (ret, q, skip_white rest)) e

pub gettoken-le : (s : List ℕ) → length (gettoken s).2 ≤ length s
gettoken-le s = elim (skip-cases s) [
  | inl e ↦
      let none_left : length (gettoken s).2 ≡ 0 = ap (λ r. length r.2) (gettoken-end s e) in
      omega (arith, none_left)
  | inr (c, t, e, black) ↦
      let more : skip_white s ≢ [] = λ f. ground (arith, sym e ∙ f) in
      omega (arith, gettoken-length s more)
]

-- What `peek` looks for is there, so a token can be read.
pub peek-length :
    (s toks : List ℕ) → (peek s toks).0 ≡ true → length (gettoken (peek s toks).1).2 < length s
unfolding peek
peek-length s toks found =
    let more : skip_white (skip_white s) ≢ [] =
      λ e. ground (arith, sym (ap (starts toks) (sym (skip-skip s) ∙ e)) ∙ found) in
    omega (arith, gettoken-length (skip_white s) more, skip-length s)

pub peek-le : (s toks : List ℕ) → length (peek s toks).1 ≤ length s
unfolding peek
peek-le s toks = skip-length s

pub token-length : (s : List ℕ) → (gettoken s).0 == 0 ≡ false → length (gettoken s).2 < length s
token-length s given = gettoken-length s (λ e.
    let none_left : (gettoken s).0 ≡ 0 = ap (λ r. r.0) (gettoken-end s e) in
    ground (arith, none_left, given))
