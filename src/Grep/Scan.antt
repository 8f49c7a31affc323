-- ===== src/Grep/Scan.antt =====
-- user/grep.c: what `matchstar` and the test of one character accept.
use gem_os_extension.Base.{
  ℕ, ◌≡◌, refl, ap, inl, inr, Bool, true, Bool-cases, List, [], ◌∷◌, ◌++◌, All, arith,
}
use gem_os_extension.Grep.{matchstar, match_one}
use gem_os_extension.Grep.Language.{Fits}

-- The text is a run of fitting characters and a rest that `here` accepts.
abbrev pub Runs : (List ℕ → Bool) → ℕ → List ℕ → Type 0
Runs here c text = (u : List ℕ) × (v : List ℕ) × (text ≡ u ++ v) × All (Fits c) u × (here v ≡ true)

pub matchstar_sound :
    (here : List ℕ → Bool) (c : ℕ) (text : List ℕ) → matchstar here c text ≡ true → Runs here c text
unfolding matchstar
matchstar_sound here c [] e = ([], [], refl, tt, e)
matchstar_sound here c (t ∷ text) e = elim (Bool-cases (here (t ∷ text))) [
  | inl now ↦ ([], t ∷ text, refl, tt, now)
  | inr later ↦
      let fits : Fits c t = ground (arith, e, later) in
      let (u, v, split, all_fit, ok) = matchstar_sound here c text (ground (arith, e, later)) in
      (t ∷ u, v, ap (λ w. t ∷ w) split, (fits, all_fit), ok)
]

matchstar_now :
    (here : List ℕ → Bool) (c : ℕ) (v : List ℕ) → here v ≡ true → matchstar here c v ≡ true
unfolding matchstar
matchstar_now here c [] e = e
matchstar_now here c (t ∷ v) e = ground (arith, e)

pub matchstar_complete :
    (here : List ℕ → Bool) (c : ℕ) (u v : List ℕ)
    → All (Fits c) u
    → here v ≡ true
    → matchstar here c (u ++ v) ≡ true
unfolding matchstar
matchstar_complete here c [] v fits e = matchstar_now here c v e
matchstar_complete here c (x ∷ u) v fits e =
    ground (arith, fits.0, matchstar_complete here c u v fits.1 e)

-- The text is a fitting character and a rest that `here` accepts.
abbrev pub Follows : (List ℕ → Bool) → ℕ → List ℕ → Type 0
Follows here c text = (x : ℕ) × (v : List ℕ) × (text ≡ x ∷ v) × Fits c x × (here v ≡ true)

pub match_one_sound :
    (here : List ℕ → Bool) (c : ℕ) (text : List ℕ)
    → match_one here c text ≡ true
    → Follows here c text
unfolding match_one
match_one_sound here c [] e = absurd (ground (arith, e))
match_one_sound here c (t ∷ text) e = (t, text, refl, ground (arith, e), ground (arith, e))

pub match_one_complete :
    (here : List ℕ → Bool) (c x : ℕ) (v : List ℕ)
    → Fits c x
    → here v ≡ true
    → match_one here c (x ∷ v) ≡ true
unfolding match_one
match_one_complete here c x v fits e = ground (arith, fits, e)
