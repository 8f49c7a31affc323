-- ===== src/Path.antt =====
-- kernel/fs.c: the elements of a path. A path is the list of its characters, without the zero at
-- its end, and so is a name.
pub mod Elements
use gem_os_extension.Base.{
  ℕ, zero, suc, Bool, true, false, Option, none, some, List, [], ◌∷◌, length, leb, ◌==◌,
  if◌then◌else◌, Outcome, done, spin, ◌>>=◌,
}

abbrev pub dirsiz : ℕ
dirsiz = 14

abbrev pub take {ℓ} : {A : Type ℓ} → ℕ → List A → List A
take zero xs = []
take (suc n) [] = []
take (suc n) (x ∷ xs) = x ∷ take n xs

-- The loops of `skipelem` over slashes.
unfoldable pub skip_slashes : List ℕ → List ℕ
skip_slashes [] = []
skip_slashes (c ∷ path) = let rest = skip_slashes path in if c == b'/' then rest else c ∷ path

-- The loop over the characters of an element: those, and the rest of the path.
unfoldable pub element : List ℕ → List ℕ × List ℕ
element [] = ([], [])
element (c ∷ path) =
    let (elem, rest) = element path in if c == b'/' then ([], c ∷ path) else (c ∷ elem, rest)

-- What is copied to `name`, which ends at DIRSIZ characters or at a zero.
abbrev pub name_of : List ℕ → List ℕ
name_of elem = if leb dirsiz (length elem) then take dirsiz elem else elem

-- The name and the path that is left; none for the null pointer.
unfoldable pub skipelem : List ℕ → Option (List ℕ × List ℕ)
unfolding skip_slashes element
skipelem path = elim (skip_slashes path) [
  | [] ↦ none
  | c ∷ path1 ↦ let (elem, rest) = element (c ∷ path1) in some (name_of elem, skip_slashes rest)
]

-- The names that the loop of `namex` sees; the first argument is the fuel.
unfoldable pub elements : ℕ → List ℕ → Outcome (List (List ℕ))
elements zero path = spin
elements (suc fuel) path = elim (skipelem path) [
  | none ↦ done []
  | some (name, rest) ↦ elements fuel rest >>= λ names. done (name ∷ names)
]
