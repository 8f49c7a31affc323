-- ===== src/Grep/Match.antt =====
-- user/grep.c: the matcher accepts the texts that the language of its expression says.
use gem_os_extension.Base.{
  ℕ, ◌≡◌, ◌≢◌, ◌↔◌, ◌⊎◌, refl, sym, ap, ◌∙◌, subst, inl, inr, Bool, true, false, Bool-cases, List,
  [], ◌∷◌, ◌++◌, arith, ◌==◌,
}
use gem_os_extension.Grep.{at_end, matchstar, match_one, matchhere, search_from, match}
use mathlib.Core.List.{append_assoc}
use gem_os_extension.Grep.Language.{
  one, star, Regexp, with_item, parse, Begins, parse_dollar, parse_last, parse_star, parse_one,
}
use gem_os_extension.Grep.Scan.{
  Runs, Follows, matchstar_sound, matchstar_complete, match_one_sound, match_one_complete,
}

at_end-[] : (text : List ℕ) → at_end text ≡ true → text ≡ []
at_end-[] [] e = refl
at_end-[] (t ∷ text) e = absurd (ground (arith, e))

star-Begins :
    (here : List ℕ → Bool) (c : ℕ) (r : Regexp) (text : List ℕ)
    → ((v : List ℕ) → here v ≡ true → Begins r v)
    → Runs here c text
    → Begins (with_item (star c) r) text
star-Begins here c r text rest (u, v, split, fits, ok) =
    let (w, x, split_v, word, ends) = rest v ok in
    (
      u ++ w,
      x,
      split ∙ ap (λ z. u ++ z) split_v ∙ sym (append_assoc u w x),
      (u, w, refl, fits, word),
      ends,
    )

one-Begins :
    (here : List ℕ → Bool) (c : ℕ) (r : Regexp) (text : List ℕ)
    → ((v : List ℕ) → here v ≡ true → Begins r v)
    → Follows here c text
    → Begins (with_item (one c) r) text
one-Begins here c r text rest (t, v, split, fits, ok) =
    let (w, x, split_v, word, ends) = rest v ok in
    (t ∷ w, x, split ∙ ap (λ z. t ∷ z) split_v, (t, w, refl, fits, word), ends)

nothing-Begins : (text : List ℕ) → Begins (record { items = []; at_end = false }) text
nothing-Begins text = ([], text, refl, refl, λ e. absurd (ground (arith, e)))

at_end-Begins :
    (text : List ℕ) → at_end text ≡ true → Begins (record { items = []; at_end = true }) text
at_end-Begins text e = ([], text, refl, refl, λ t. at_end-[] text e)

matchhere_sound : (re text : List ℕ) → matchhere re text ≡ true → Begins (parse re) text
unfolding matchhere parse
matchhere_sound [] text e = nothing-Begins text
matchhere_sound (c ∷ []) text e = elim (Bool-cases (c == b'$')) [
  | inl dollar ↦
      subst (λ r. Begins r text) (sym (parse_dollar c dollar))
        (at_end-Begins text (ground (arith, e, dollar)))
  | inr char ↦
      subst (λ r. Begins r text) (sym (parse_last c char))
        (one-Begins (λ rest. true) c (record { items = []; at_end = false }) text
          (λ v _. nothing-Begins v)
          (match_one_sound (λ rest. true) c text (ground (arith, e, char))))
]
matchhere_sound (c ∷ d ∷ re) text e = elim (Bool-cases (d == b'*')) [
  | inl starred ↦
      subst (λ r. Begins r text) (sym (parse_star c d re starred))
        (star-Begins (matchhere re) c (parse re) text (matchhere_sound re)
          (matchstar_sound (matchhere re) c text (ground (arith, e, starred))))
  | inr single ↦
      subst (λ r. Begins r text) (sym (parse_one c d re single))
        (one-Begins (matchhere (d ∷ re)) c (parse (d ∷ re)) text (matchhere_sound (d ∷ re))
          (match_one_sound (matchhere (d ∷ re)) c text (ground (arith, e, single))))
]

at_end_end :
    (text : List ℕ) → Begins (record { items = []; at_end = true }) text → at_end text ≡ true
at_end_end text (u, v, split, word, ends) =
    let v_empty : v ≡ [] = ends refl in
    let empty : text ≡ [] = split ∙ ap (λ z. z ++ v) word ∙ v_empty in ap at_end empty

Begins-Runs :
    (here : List ℕ → Bool) (c : ℕ) (r : Regexp) (text : List ℕ)
    → ((v : List ℕ) → Begins r v → here v ≡ true)
    → Begins (with_item (star c) r) text
    → matchstar here c text ≡ true
Begins-Runs here c r text rest (u, v, split, (run, w, split_u, fits, word), ends) =
    subst (λ z. matchstar here c z ≡ true)
      (sym (split ∙ ap (λ z. z ++ v) split_u ∙ append_assoc run w v))
      (matchstar_complete here c run (w ++ v) fits (rest (w ++ v) (w, v, refl, word, ends)))

Begins-Follows :
    (here : List ℕ → Bool) (c : ℕ) (r : Regexp) (text : List ℕ)
    → ((v : List ℕ) → Begins r v → here v ≡ true)
    → Begins (with_item (one c) r) text
    → match_one here c text ≡ true
Begins-Follows here c r text rest (u, v, split, (t, w, split_u, fits, word), ends) =
    subst (λ z. match_one here c z ≡ true) (sym (split ∙ ap (λ z. z ++ v) split_u))
      (match_one_complete here c t (w ++ v) fits (rest (w ++ v) (w, v, refl, word, ends)))

matchhere_complete : (re text : List ℕ) → Begins (parse re) text → matchhere re text ≡ true
unfolding matchhere
matchhere_complete [] text begins = refl
matchhere_complete (c ∷ []) text begins = elim (Bool-cases (c == b'$')) [
  | inl dollar ↦
      let ends : at_end text ≡ true =
        at_end_end text (subst (λ r. Begins r text) (parse_dollar c dollar) begins) in
      ground (arith, ends, dollar)
  | inr char ↦
      let found : match_one (λ rest. true) c text ≡ true =
        Begins-Follows (λ rest. true) c (record { items = []; at_end = false }) text (λ v _. refl)
          (subst (λ r. Begins r text) (parse_last c char) begins) in
      ground (arith, found, char)
]
matchhere_complete (c ∷ d ∷ re) text begins = elim (Bool-cases (d == b'*')) [
  | inl starred ↦
      let found : matchstar (matchhere re) c text ≡ true =
        Begins-Runs (matchhere re) c (parse re) text (matchhere_complete re)
          (subst (λ r. Begins r text) (parse_star c d re starred) begins) in
      ground (arith, found, starred)
  | inr single ↦
      let found : match_one (matchhere (d ∷ re)) c text ≡ true =
        Begins-Follows (matchhere (d ∷ re)) c (parse (d ∷ re)) text (matchhere_complete (d ∷ re))
          (subst (λ r. Begins r text) (parse_one c d re single) begins) in
      ground (arith, found, single)
]

-- For every expression and text, `matchhere` answers 1 exactly when the text begins with a word of
-- the expression's language, and is such a word where the expression ends in a dollar.
matchhere-Begins : (re text : List ℕ) → (matchhere re text ≡ true) ↔ Begins (parse re) text
matchhere-Begins re text = (matchhere_sound re text, matchhere_complete re text)

-- Some end of the text is accepted.
abbrev pub Somewhere : (List ℕ → Bool) → List ℕ → Type 0
Somewhere here text = (skip : List ℕ) × (rest : List ℕ) × (text ≡ skip ++ rest) × (here rest ≡ true)

search_sound :
    (here : List ℕ → Bool) (text : List ℕ) → search_from here text ≡ true → Somewhere here text
unfolding search_from
search_sound here [] e = ([], [], refl, e)
search_sound here (t ∷ text) e = elim (Bool-cases (here (t ∷ text))) [
  | inl now ↦ ([], t ∷ text, refl, now)
  | inr later ↦
      let (skip, rest, split, ok) = search_sound here text (ground (arith, e, later)) in
      (t ∷ skip, rest, ap (λ w. t ∷ w) split, ok)
]

search_now :
    (here : List ℕ → Bool) (text : List ℕ) → here text ≡ true → search_from here text ≡ true
unfolding search_from
search_now here [] e = e
search_now here (t ∷ text) e = ground (arith, e)

search_complete :
    (here : List ℕ → Bool) (skip rest : List ℕ)
    → here rest ≡ true
    → search_from here (skip ++ rest) ≡ true
unfolding search_from
search_complete here [] rest e = search_now here rest e
search_complete here (t ∷ skip) rest e = ground (arith, search_complete here skip rest e)

-- What `match` is for: the expression at the start of the text when it begins with a caret, and
-- anywhere in the text otherwise.
abbrev pub Found : List ℕ → List ℕ → Type 0
Found re text = (skip : List ℕ) × (rest : List ℕ) × (text ≡ skip ++ rest) × Begins (parse re) rest

search-Found : (re text : List ℕ) → (search_from (matchhere re) text ≡ true) ↔ Found re text
search-Found re text = (
  λ e.
      let (skip, rest, split, ok) = search_sound (matchhere re) text e in
      (skip, rest, split, matchhere_sound re rest ok),
  λ (skip, rest, split, begins).
      subst (λ z. search_from (matchhere re) z ≡ true) (sym split)
        (search_complete (matchhere re) skip rest (matchhere_complete re rest begins)),
)

-- An expression that begins with a caret, and every other one.
abbrev pub Accepts : List ℕ → List ℕ → Type 0
Accepts [] text = Found [] text
Accepts (c ∷ re) text = ((c ≡ b'^') × Begins (parse re) text) ⊎ ((c ≢ b'^') × Found (c ∷ re) text)

-- `match` answers 1 exactly when the text holds a match: for an expression that begins with a
-- caret, when the text begins with a word of the language of what follows the caret; for every
-- other expression, when some end of the text begins with a word of the expression's language. In
-- the language, a starred character stands for any number of characters it fits, a dollar at the
-- end of the expression for the end of the text, and a dot fits every character.
pub match-Accepts : (re text : List ℕ) → (match re text ≡ true) ↔ Accepts re text
unfolding match
match-Accepts [] text = search-Found [] text
match-Accepts (c ∷ re) text = elim (Bool-cases (c == b'^')) [
  | inl caret ↦
      let same : match (c ∷ re) text ≡ matchhere re text = ground (arith, caret) in
      let is : c ≡ b'^' = ground (arith, caret) in
      (
        λ e. inl (is, (matchhere-Begins re text).0 (sym same ∙ e)),
        λ accepts. elim accepts [
          | inl (_, begins) ↦ same ∙ (matchhere-Begins re text).1 begins
          | inr (isnt, _) ↦ absurd (isnt is)
        ],
      )
  | inr other ↦
      let same : match (c ∷ re) text ≡ search_from (matchhere (c ∷ re)) text =
        ground (arith, other) in
      let isnt : c ≢ b'^' = ground (arith, other) in
      (
        λ e. inr (isnt, (search-Found (c ∷ re) text).0 (sym same ∙ e)),
        λ accepts. elim accepts [
          | inl (is, _) ↦ absurd (isnt is)
          | inr (_, found) ↦ same ∙ (search-Found (c ∷ re) text).1 found
        ],
      )
]
