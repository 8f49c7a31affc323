-- ===== src/Path/Elements.antt =====
-- kernel/fs.c: a path that is written from names is read as those names.
use gem_os_extension.Base.{
  ℕ, zero, suc, ◌≤◌, ◌≡◌, ◌≢◌, refl, sym, ap, ◌∙◌, leb, inl, inr, Bool-cases, none, some, List, [],
  ◌∷◌, ◌++◌, All, length, ◌==◌, done, ◌>>=◌, arith,
}
use gem_os_extension.Path.{dirsiz, take, skip_slashes, element, name_of, skipelem, elements}

abbrev pub slashes : ℕ → List ℕ → List ℕ
slashes zero path = path
slashes (suc n) path = b'/' ∷ slashes n path

-- Names, each behind its slashes, and the slashes at the end.
abbrev pub written : List (ℕ × List ℕ) → ℕ → List ℕ
written [] last = slashes last []
written ((n, name) ∷ rest) last = slashes n (name ++ written rest last)

-- The first n characters, or all where there are fewer.
abbrev pub first_chars : ℕ → List ℕ → List ℕ
first_chars n [] = []
first_chars zero (c ∷ name) = []
first_chars (suc n) (c ∷ name) = c ∷ first_chars n name

-- The names, of which only 14 characters count.
abbrev pub names : List (ℕ × List ℕ) → List (List ℕ)
names [] = []
names ((n, name) ∷ rest) = first_chars 14 name ∷ names rest

take-first_chars : (n : ℕ) (name : List ℕ) → take n name ≡ first_chars n name
take-first_chars zero [] = refl
take-first_chars zero (c ∷ name) = refl
take-first_chars (suc n) [] = refl
take-first_chars (suc n) (c ∷ name) = ap (λ rest. c ∷ rest) (take-first_chars n name)

first_chars-short : (n : ℕ) (name : List ℕ) → length name ≤ n → first_chars n name ≡ name
first_chars-short n [] short = refl
first_chars-short zero (c ∷ name) short = absurd (omega (arith, short))
first_chars-short (suc n) (c ∷ name) short =
    ap (λ rest. c ∷ rest) (first_chars-short n name (omega (arith, short)))

name_of-first_chars : (name : List ℕ) → name_of name ≡ first_chars 14 name
name_of-first_chars name = elim (Bool-cases (leb dirsiz (length name))) [
  | inl long ↦ rw long (take-first_chars 14 name)
  | inr short ↦ rw short (sym (first_chars-short 14 name (ground (arith, short))))
]

-- A name is not empty and has no slash.
abbrev pub IsName : List ℕ → Type 0
IsName name = (name ≢ []) × All (λ c. c ≢ b'/') name

-- All names but the first one have a slash before them.
abbrev pub IsWritten : List (ℕ × List ℕ) → Type 0
IsWritten [] = Unit
IsWritten ((n, name) ∷ rest) = (1 ≤ n) × IsName name × IsWritten rest

skip_slashes-slashes : (n : ℕ) (path : List ℕ) → skip_slashes (slashes n path) ≡ skip_slashes path
unfolding skip_slashes
skip_slashes-slashes zero path = refl
skip_slashes-slashes (suc n) path = skip_slashes-slashes n path

skip_twice : (path : List ℕ) → skip_slashes (skip_slashes path) ≡ skip_slashes path
unfolding skip_slashes
skip_twice [] = refl
skip_twice (c ∷ path) = elim (Bool-cases (c == b'/')) [
  | inl slash ↦ ground (arith, slash, skip_twice path)
  | inr other ↦ ground (arith, other)
]

-- The end of a path, or a slash.
abbrev Stops : List ℕ → Type 0
Stops [] = Unit
Stops (c ∷ path) = c ≡ b'/'

written-Stops : (rest : List (ℕ × List ℕ)) (last : ℕ) → IsWritten rest → Stops (written rest last)
written-Stops [] zero h = tt
written-Stops [] (suc last) h = refl
written-Stops ((zero, name) ∷ rest) last h = absurd (ground (arith, h.0))
written-Stops ((suc n, name) ∷ rest) last h = refl

element_name :
    (name path : List ℕ)
    → All (λ c. c ≢ b'/') name
    → Stops path
    → element (name ++ path) ≡ (name, path)
unfolding element
element_name [] [] h stops = refl
element_name [] (c ∷ path) h stops = ground (arith, stops)
element_name (c ∷ name) path h stops = ground (arith, h.0, element_name name path h.1 stops)

skip_char : (c : ℕ) (path : List ℕ) → c ≢ b'/' → skip_slashes (c ∷ path) ≡ c ∷ path
unfolding skip_slashes
skip_char c path other = ground (arith, other)

skipelem_name :
    (n : ℕ) (name path : List ℕ)
    → IsName name
    → Stops path
    → skipelem (slashes n (name ++ path)) ≡ some (name_of name, skip_slashes path)
unfolding skipelem
skipelem_name n [] path h stops = absurd (h.0 refl)
skipelem_name n (c ∷ name) path h stops =
    let char : skip_slashes (c ∷ name ++ path) ≡ c ∷ name ++ path =
      skip_char c (name ++ path) h.1.0 in
    let start : skip_slashes (slashes n (c ∷ name ++ path)) ≡ c ∷ name ++ path =
      skip_slashes-slashes n (c ∷ name ++ path) ∙ char in
    let parts : element (c ∷ name ++ path) ≡ (c ∷ name, path) =
      element_name (c ∷ name) path h.1 stops in
    rw (skipelem, start) (rw parts refl)

skipelem-slashes : (n : ℕ) → skipelem (slashes n []) ≡ none
unfolding skipelem skip_slashes
skipelem-slashes n =
    let nothing : skip_slashes (slashes n []) ≡ [] = skip_slashes-slashes n [] in
    rw (skipelem, nothing) refl

skipelem_twice : (path : List ℕ) → skipelem (skip_slashes path) ≡ skipelem path
unfolding skipelem
skipelem_twice path = rw (skipelem, skip_twice path) refl

elements_twice : (fuel : ℕ) (path : List ℕ) → elements fuel (skip_slashes path) ≡ elements fuel path
unfolding elements
elements_twice zero path = refl
elements_twice (suc fuel) path = rw (elements, skipelem_twice path) refl

elements_step :
    (fuel n : ℕ) (name path : List ℕ)
    → IsName name
    → Stops path
    → elements (suc fuel) (slashes n (name ++ path))
      ≡ (elements fuel path >>= λ others. done (first_chars 14 name ∷ others))
unfolding elements
elements_step fuel n name path h stops =
    rw (elements, skipelem_name n name path h stops)
      (ap (λ o. o >>= λ others. done (name_of name ∷ others)) (elements_twice fuel path)
        ∙ ap (λ x. elements fuel path >>= λ others. done (x ∷ others)) (name_of-first_chars name))

elements-written_rest :
    (rest : List (ℕ × List ℕ)) (last : ℕ)
    → IsWritten rest
    → elements (suc (length rest)) (written rest last) ≡ done (names rest)
unfolding elements
elements-written_rest [] last h = rw (elements, skipelem-slashes last) refl
elements-written_rest ((n, name) ∷ rest) last h =
    elements_step (suc (length rest)) n name (written rest last) h.1 (written-Stops rest last h.2)
    ∙ ap (λ o. o >>= λ others. done (first_chars 14 name ∷ others))
        (elements-written_rest rest last h.2)

-- A path that is written from names, which are not empty and have no slash, with any number of
-- slashes before the first and behind the last of them and at least one between two, is read as those
-- names, each cut to its first 14 characters; the rounds that this takes are one more than the names.
pub elements-written :
    (n : ℕ) (name : List ℕ) (rest : List (ℕ × List ℕ)) (last : ℕ)
    → IsName name
    → IsWritten rest
    → elements (suc (suc (length rest))) (written ((n, name) ∷ rest) last)
      ≡ done (names ((n, name) ∷ rest))
elements-written n name rest last h hs =
    elements_step (suc (length rest)) n name (written rest last) h (written-Stops rest last hs)
    ∙ ap (λ o. o >>= λ others. done (first_chars 14 name ∷ others))
        (elements-written_rest rest last hs)
