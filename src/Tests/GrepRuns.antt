-- ===== src/Tests/GrepRuns.antt =====
-- A pattern with each of grep's operators, on a text.
use gem_os_extension.Base.{ℕ, ◌≡◌, ◌↔◌, refl, true, false, List, [], ◌∷◌}
use gem_os_extension.Grep.{matchstar, match_one, matchhere, search_from, match}
use gem_os_extension.Grep.Match.{Accepts, match-Accepts}

-- ^x*.y$
abbrev pattern_1 : List ℕ
pattern_1 = b'^' ∷ b'x' ∷ b'*' ∷ b'.' ∷ b'y' ∷ b'$' ∷ []

-- xxxxy
abbrev text_1 : List ℕ
text_1 = b'x' ∷ b'x' ∷ b'x' ∷ b'x' ∷ b'y' ∷ []

found : match pattern_1 text_1 ≡ true
unfolding match search_from matchhere matchstar match_one
found = refl

not_found : match pattern_1 (b'y' ∷ text_1) ≡ false
unfolding match search_from matchhere matchstar match_one
not_found = refl

match-Accepts_example : (match pattern_1 text_1 ≡ true) ↔ Accepts pattern_1 text_1
match-Accepts_example = match-Accepts pattern_1 text_1
