-- ===== src/Grep.antt =====
-- user/grep.c: the matcher of regular expressions. A string is the list of its characters, without
-- the zero that ends it.
pub mod Language
mod Scan
pub mod Match
use gem_os_extension.Base.{ℕ, Bool, true, false, ◌||◌, List, [], ◌∷◌, ◌==◌, if◌then◌else◌}

-- The test for the end of the text.
abbrev pub at_end : List ℕ → Bool
at_end [] = true
at_end (t ∷ text) = false

-- `matchstar`; `here` is the call of `matchhere` with the rest of the expression.
unfoldable pub matchstar : (List ℕ → Bool) → ℕ → List ℕ → Bool
matchstar here c [] = here []
matchstar here c (t ∷ text) =
    let rest = matchstar here c text in
    if here (t ∷ text) then true else if t == c || c == b'.' then rest else false

-- The last test of `matchhere`: one character.
unfoldable pub match_one : (List ℕ → Bool) → ℕ → List ℕ → Bool
match_one here c [] = false
match_one here c (t ∷ text) = if c == b'.' || c == t then here text else false

unfoldable pub matchhere : List ℕ → List ℕ → Bool
unfolding matchstar match_one
matchhere [] text = true
matchhere (c ∷ []) text = if c == b'$' then at_end text else match_one (λ rest. true) c text
matchhere (c ∷ d ∷ re) text =
    let starred = matchstar (matchhere re) c text in
    let one = match_one (matchhere (d ∷ re)) c text in if d == b'*' then starred else one

-- The loop of `match`, at each place of the text and at its end.
unfoldable pub search_from : (List ℕ → Bool) → List ℕ → Bool
search_from here [] = here []
search_from here (t ∷ text) =
    let rest = search_from here text in if here (t ∷ text) then true else rest

unfoldable pub match : List ℕ → List ℕ → Bool
unfolding search_from
match [] text = search_from (matchhere []) text
match (c ∷ re) text = if c == b'^' then matchhere re text else search_from (matchhere (c ∷ re)) text
