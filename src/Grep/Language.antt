-- ===== src/Grep/Language.antt =====
-- user/grep.c: the language of the expressions that grep takes.
use gem_os_extension.Base.{
  ℕ, ◌≡◌, ◌⊎◌, Bool, true, false, List, [], ◌∷◌, ◌++◌, All, arith, ◌==◌, if◌then◌else◌,
}

-- An expression is a row of such items, at the end of the text or not.
pub data Item : Type 0 where
  one star : ℕ → Item

pub record Regexp : Type 0 where
  pub items : List Item
  pub at_end : Bool

abbrev pub with_item : Item → Regexp → Regexp
with_item i r = record r { items = i ∷ r.items }

-- The syntax: a character that a star follows stands for any number of it; a dollar that is the last
-- character stands for the end; every other character stands for one.
unfoldable pub parse : List ℕ → Regexp
parse [] = record { items = []; at_end = false }
parse (c ∷ []) =
    if c == b'$'
    then record { items = []; at_end = true }
    else record { items = one c ∷ []; at_end = false }
parse (c ∷ d ∷ re) =
    let starred = with_item (star c) (parse re) in
    let single = with_item (one c) (parse (d ∷ re)) in if d == b'*' then starred else single

-- A dot fits every character.
abbrev pub Fits : ℕ → ℕ → Type 0
Fits c x = (c ≡ b'.') ⊎ (c ≡ x)

-- The words of a row of items.
abbrev pub Word : List Item → List ℕ → Type 0
Word [] w = w ≡ []
Word (one c ∷ items) w = (x : ℕ) × (v : List ℕ) × (w ≡ x ∷ v) × Fits c x × Word items v
Word (star c ∷ items) w = (u : List ℕ) × (v : List ℕ) × (w ≡ u ++ v) × All (Fits c) u × Word items v

-- The text begins with a word, and is that word where the expression says so.
abbrev pub Begins : Regexp → List ℕ → Type 0
Begins r text =
    (u : List ℕ) × (v : List ℕ) × (text ≡ u ++ v) × Word r.items u × (r.at_end ≡ true → v ≡ [])

pub parse_dollar :
    (c : ℕ) → c == b'$' ≡ true → parse (c ∷ []) ≡ record { items = []; at_end = true }
unfolding parse
parse_dollar c e = ground (arith, e)

pub parse_last :
    (c : ℕ) → c == b'$' ≡ false → parse (c ∷ []) ≡ record { items = one c ∷ []; at_end = false }
unfolding parse
parse_last c e = ground (arith, e)

pub parse_star :
    (c d : ℕ) (re : List ℕ) → d == b'*' ≡ true → parse (c ∷ d ∷ re) ≡ with_item (star c) (parse re)
unfolding parse
parse_star c d re e = ground (arith, e)

pub parse_one :
    (c d : ℕ) (re : List ℕ)
    → d == b'*' ≡ false
    → parse (c ∷ d ∷ re) ≡ with_item (one c) (parse (d ∷ re))
unfolding parse
parse_one c d re e = ground (arith, e)
