-- ===== src/Sh/Written.antt =====
-- user/sh.c: commands written out, and the tokens and the lists of words that the parser finds.
use gem_os_extension.Base.{
  ℕ, suc, ◌+◌, ◌<◌, ◌≤◌, ◌≡◌, ◌⊎◌, inl, inr, refl, ap, ◌∙◌, Bool, true, false, ◌||◌, Bool-cases,
  List, [], ◌∷◌, ◌++◌, length, length-append, All, ltb, ◌==◌, if◌then◌else◌, arith,
}
use gem_os_extension.Sh.{
  maxargs, Cmd, exec, redir, pipe, list, back, whitespace, symbols, strchr, skip_white, word,
  token_at, gettoken, starts,
}

-- Characters that are neither blanks nor symbols, at least one.
abbrev pub IsWord : List ℕ → Type 0
IsWord [] = ⊥
IsWord (c ∷ w) = All (λ d. (strchr whitespace d ≡ false) × (strchr symbols d ≡ false)) (c ∷ w)

-- What `parseredirs` makes of `<`, `>` and `>>`.
abbrev pub IsMode : ℕ → ℕ → Type 0
IsMode mode fd = ((mode ≡ 0) × (fd ≡ 0)) ⊎ (((mode ≡ 1537) × (fd ≡ 1)) ⊎ ((mode ≡ 513) × (fd ≡ 1)))

abbrev pub IsCmd : Cmd → Type 0
IsCmd (exec argv) = All IsWord argv × (length argv < maxargs)
IsCmd (redir cmd file mode fd) = IsCmd cmd × IsWord file × IsMode mode fd
IsCmd (pipe left right) = IsCmd left × IsCmd right
IsCmd (list left right) = IsCmd left × IsCmd right
IsCmd (back cmd) = IsCmd cmd

-- A text in front of a text: a word with a blank, the sign of a redirection, parentheses.
abbrev pub word_then : List ℕ → List ℕ → List ℕ
word_then w t = w ++ 32 ∷ t

abbrev pub args_then : List (List ℕ) → List ℕ → List ℕ
args_then [] t = t
args_then (w ∷ argv) t = word_then w (args_then argv t)

abbrev pub sign_then : ℕ → List ℕ → List ℕ
sign_then mode t =
    if mode == 0 then b'<' ∷ t else if mode == 1537 then b'>' ∷ t else b'>' ∷ b'>' ∷ t

abbrev pub in_parens : Bool → (List ℕ → List ℕ) → List ℕ → List ℕ
in_parens true inner t = b'(' ∷ 32 ∷ inner (b')' ∷ 32 ∷ t)
in_parens false inner t = inner t

-- The command in front of a text, where the grammar asks for an element of a pipe (0), a pipe (1), a
-- pipe with `&` behind it (2), or a line (3).
abbrev pub write : ℕ → Cmd → List ℕ → List ℕ
write level (exec argv) t = args_then argv t
write level (redir cmd file mode fd) t = write 0 cmd (sign_then mode (word_then file t))
write level (pipe left right) t =
    in_parens (ltb level 1) (λ u. write 0 left (b'|' ∷ 32 ∷ write 1 right u)) t
write level (back cmd) t = in_parens (ltb level 2) (λ u. write 2 cmd (b'&' ∷ 32 ∷ u)) t
write level (list left right) t =
    in_parens (ltb level 3) (λ u. write 2 left (b';' ∷ 32 ∷ write 3 right u)) t

word-word :
    (w t : List ℕ)
    → All (λ d. (strchr whitespace d ≡ false) × (strchr symbols d ≡ false)) w
    → word (word_then w t) ≡ (w, 32 ∷ t)
word-word [] t h = refl
word-word (c ∷ w) t h =
    let (black, plain) = h.0 in
    rw (black, plain) (ap (λ (r : List ℕ × List ℕ). (c ∷ r.0, r.1)) (word-word w t h.1))

pub gettoken-word : (w t : List ℕ) → IsWord w → gettoken (word_then w t) ≡ (b'a', w, skip_white t)
unfolding gettoken token_at
gettoken-word [] t h = absurd h
gettoken-word (c ∷ w) t h =
    let (black, plain) = h.0 in
    let single : (c == b'|' || c == b'(' || c == b')' || c == b';' || c == b'&' || c == b'<')
        ≡ false =
      ground (arith, plain) in
    let greater : c == b'>' ≡ false = ground (arith, plain) in
    let s = word_then (c ∷ w) t in
    let skipped : skip_white s ≡ s = rw black refl in
    let token : token_at s ≡ (b'a', (word s).0, (word s).1) = rw (single, greater) refl in
    ap (λ x. let (ret, q, rest) = token_at x in (ret, q, skip_white rest)) skipped
    ∙ ap (λ (r : ℕ × List ℕ × List ℕ). (r.0, r.1, skip_white r.2)) token
    ∙ ap (λ (r : List ℕ × List ℕ). (b'a', r.0, skip_white r.1)) (word-word (c ∷ w) t h)

-- The text behind a word: no blank leads it, and no parenthesis.
abbrev pub IsNext : List ℕ → Type 0
IsNext t = (skip_white t ≡ t) × (starts (b'(' ∷ []) t ≡ false)

-- The text behind an element of a pipe.
abbrev pub ends : List ℕ → Bool
ends [] = true
ends (c ∷ t) = strchr (b'|' ∷ b')' ∷ b'&' ∷ b';' ∷ []) c

pub ends-IsNext : (t : List ℕ) → ends t ≡ true → IsNext t
ends-IsNext [] h = (refl, refl)
ends-IsNext (c ∷ t) h =
    let black : strchr whitespace c ≡ false = ground (arith, h) in
    (rw black refl, ground (arith, h))

pub word-IsNext : (w t : List ℕ) → IsWord w → IsNext (word_then w t)
word-IsNext [] t h = absurd h
word-IsNext (c ∷ w) t h = let (black, plain) = h.0 in (rw black refl, ground (arith, plain))

pub args-IsNext :
    (argv : List (List ℕ)) (t : List ℕ) → All IsWord argv → IsNext t → IsNext (args_then argv t)
args-IsNext [] t h next = next
args-IsNext (w ∷ argv) t h next = word-IsNext w (args_then argv t) h.0

pub sign-IsNext : (mode fd : ℕ) (t : List ℕ) → IsMode mode fd → IsNext (sign_then mode t)
sign-IsNext mode fd t (inl (m, f)) = rw m (refl, refl)
sign-IsNext mode fd t (inr (inl (m, f))) = rw m (refl, refl)
sign-IsNext mode fd t (inr (inr (m, f))) = rw m (refl, refl)

pub write-skip :
    (level : ℕ) (cmd : Cmd) (t : List ℕ)
    → IsCmd cmd
    → IsNext t
    → skip_white (write level cmd t) ≡ write level cmd t
write-skip level (exec argv) t h next = (args-IsNext argv t h.0 next).0
write-skip level (redir cmd file mode fd) t h next =
    write-skip 0 cmd (sign_then mode (word_then file t)) h.0
      (sign-IsNext mode fd (word_then file t) h.2)
write-skip level (pipe left right) t h next = elim (Bool-cases (ltb level 1)) [
  | inl inside ↦ rw inside refl
  | inr bare ↦ rw bare (write-skip 0 left (b'|' ∷ 32 ∷ write 1 right t) h.0 (refl, refl))
]
write-skip level (back cmd) t h next = elim (Bool-cases (ltb level 2)) [
  | inl inside ↦ rw inside refl
  | inr bare ↦ rw bare (write-skip 2 cmd (b'&' ∷ 32 ∷ t) h (refl, refl))
]
write-skip level (list left right) t h next = elim (Bool-cases (ltb level 3)) [
  | inl inside ↦ rw inside refl
  | inr bare ↦ rw bare (write-skip 2 left (b';' ∷ 32 ∷ write 3 right t) h.0 (refl, refl))
]

pub word_then-length : (w t : List ℕ) → length (word_then w t) ≡ length w + suc (length t)
word_then-length w t = length-append w (32 ∷ t)

args_then-length : (argv : List (List ℕ)) (t : List ℕ) → length t ≤ length (args_then argv t)
args_then-length [] t = omega arith
args_then-length (w ∷ argv) t =
    omega (arith, word_then-length w (args_then argv t), args_then-length argv t)

pub sign_then-length : (mode : ℕ) (t : List ℕ) → length t ≤ length (sign_then mode t)
sign_then-length mode t = ground arith

pub write-length : (level : ℕ) (cmd : Cmd) (t : List ℕ) → length t ≤ length (write level cmd t)
write-length level (exec argv) t = args_then-length argv t
write-length level (redir cmd file mode fd) t = omega (
  arith,
  write-length 0 cmd (sign_then mode (word_then file t)),
  sign_then-length mode (word_then file t),
  word_then-length file t,
)
write-length level (pipe left right) t = elim (Bool-cases (ltb level 1)) [
  | inl inside ↦ rw inside (
      omega (
        arith,
        write-length 0 left (b'|' ∷ 32 ∷ write 1 right (b')' ∷ 32 ∷ t)),
        write-length 1 right (b')' ∷ 32 ∷ t),
      ))
  | inr bare ↦
      rw bare
        (omega (arith, write-length 0 left (b'|' ∷ 32 ∷ write 1 right t), write-length 1 right t))
]
write-length level (back cmd) t = elim (Bool-cases (ltb level 2)) [
  | inl inside ↦ rw inside (omega (arith, write-length 2 cmd (b'&' ∷ 32 ∷ b')' ∷ 32 ∷ t)))
  | inr bare ↦ rw bare (omega (arith, write-length 2 cmd (b'&' ∷ 32 ∷ t)))
]
write-length level (list left right) t = elim (Bool-cases (ltb level 3)) [
  | inl inside ↦ rw inside (
      omega (
        arith,
        write-length 2 left (b';' ∷ 32 ∷ write 3 right (b')' ∷ 32 ∷ t)),
        write-length 3 right (b')' ∷ 32 ∷ t),
      ))
  | inr bare ↦
      rw bare
        (omega (arith, write-length 2 left (b';' ∷ 32 ∷ write 3 right t), write-length 3 right t))
]
