-- ===== src/Tests/PathRuns.antt =====
-- The paths //ab/c/ and //abcdefghijklmno/c/; the first name of the second has 15 characters.
use gem_os_extension.Base.{ℕ, ◌≡◌, refl, arith, List, [], ◌∷◌, done}
use gem_os_extension.Path.{elements, skipelem, skip_slashes, element}
use gem_os_extension.Path.Elements.{written, names, IsName, elements-written}

abbrev ab : List ℕ
ab = b'a' ∷ b'b' ∷ []

abbrev only_c : List ℕ
only_c = b'c' ∷ []

read : elements 3 (b'/' ∷ b'/' ∷ b'a' ∷ b'b' ∷ b'/' ∷ b'c' ∷ b'/' ∷ []) ≡ done (ab ∷ only_c ∷ [])
unfolding elements skipelem skip_slashes element
read = refl

ab-IsName : IsName ab
ab-IsName = ((λ e. ground (arith, e)), ((ground arith), (ground arith, tt)))

only_c-IsName : IsName only_c
only_c-IsName = ((λ e. ground (arith, e)), (ground arith, tt))

abbrev long_name : List ℕ
long_name =
    b'a' ∷ b'b' ∷ b'c' ∷ b'd' ∷ b'e' ∷ b'f' ∷ b'g' ∷ b'h' ∷ b'i' ∷ b'j' ∷ b'k' ∷ b'l' ∷ b'm' ∷ b'n'
    ∷ b'o' ∷ []

long_name-IsName : IsName long_name
long_name-IsName = ((λ e. ground (arith, e)), ground arith)

elements-written_example :
    elements 3 (written ((2, long_name) ∷ (1, only_c) ∷ []) 1)
    ≡ done (names ((2, long_name) ∷ (1, only_c) ∷ []))
elements-written_example =
    elements-written 2 long_name ((1, only_c) ∷ []) 1 long_name-IsName
      (omega arith, only_c-IsName, tt)
