-- ===== src/Sh/Ends.antt =====
-- user/sh.c: every function of the parser ends.
use gem_os_extension.Base.{
  ℕ, zero, suc, ◌+◌, ◌<◌, ◌≤◌, ◌≡◌, ◌⊎◌, inl, inr, refl, sym, ap, ◌∙◌, subst, Bool, true, false,
  not, List, [], ◌∷◌, length, leb, ◌==◌, if◌then◌else◌, Outcome, done, panic, ◌>>=◌, arith,
}
use gem_os_extension.Sh.{
  maxargs, Cmd, exec, pipe, list, back, gettoken, peek, redirected, redirs_from, parseredirs,
  add_arg, args_from, parseblock, parseexec, pipe_from, parsepipe, back_from, parseline, finish,
  parsecmd,
}
use gem_os_extension.Sh.Tokens.{token-length, gettoken-le, peek-length, peek-le}

-- A command and what is left of the text, which is no longer than n, or a syntax error.
abbrev pub Ends : ℕ → Outcome (Cmd × List ℕ) → Type 0
Ends n r = ((c : Cmd) × (t : List ℕ) × (length t ≤ n) × (r ≡ done (c, t))) ⊎ (r ≡ panic)

module _ {r : Outcome (Cmd × List ℕ)} where
  pub Ends-le : (m n : ℕ) → m ≤ n → Ends m r → Ends n r
  Ends-le m n le (inl (c, t, short, e)) = inl (c, t, omega (arith, le, short), e)
  Ends-le m n le (inr e) = inr e

  pub Ends-bind :
      (f : Cmd × List ℕ → Outcome (Cmd × List ℕ)) (m n : ℕ)
      → Ends m r
      → ((c : Cmd) (t : List ℕ) → length t ≤ m → Ends n (f (c, t)))
      → Ends n (r >>= f)
  Ends-bind f m n (inl (c, t, short, e)) next =
      subst (λ x. Ends n (x >>= f)) (sym e) (next c t short)
  Ends-bind f m n (inr e) next = inr (ap (λ x. x >>= f) e)

  pub Ends-if :
      {q : Outcome (Cmd × List ℕ)} (n : ℕ) (b : Bool)
      → (b ≡ true → Ends n r)
      → (b ≡ false → Ends n q)
      → Ends n (if b then r else q)
  Ends-if n true met unmet = met refl
  Ends-if n false met unmet = unmet refl

pub redirs_from-Ends :
    (fuel : ℕ) (cmd : Cmd) (s : List ℕ) → length s < fuel → Ends (length s) (redirs_from fuel cmd s)
unfolding redirs_from
redirs_from-Ends zero cmd s low = absurd (omega (arith, low))
redirs_from-Ends (suc fuel) cmd s low =
    let n = length s in
    let (more, s1) = peek s (b'<' ∷ b'>' ∷ []) in
    let (tok, none_here, s2) = gettoken s1 in
    let (kind, q, s3) = gettoken s2 in
    Ends-if n (not more) (λ e. inl (cmd, s1, peek-le s (b'<' ∷ b'>' ∷ []), refl))
      (λ e.
        let shorter : length s3 < n =
          omega (arith, peek-length s (b'<' ∷ b'>' ∷ []) (ground (arith, e)), gettoken-le s2) in
        Ends-if n (not (kind == b'a')) (λ f. inr refl)
          (λ f.
            Ends-le (length s3) n (omega (arith, shorter))
              (redirs_from-Ends fuel (redirected tok cmd q) s3 (omega (arith, shorter, low)))))

pub parseredirs-Ends : (cmd : Cmd) (s : List ℕ) → Ends (length s) (parseredirs cmd s)
unfolding parseredirs
parseredirs-Ends cmd s = redirs_from-Ends (suc (length s)) cmd s (omega arith)

pub args_from-Ends :
    (fuel argc : ℕ) (ret : Cmd) (s : List ℕ)
    → length s < fuel
    → Ends (length s) (args_from fuel argc ret s)
unfolding args_from
args_from-Ends zero argc ret s low = absurd (omega (arith, low))
args_from-Ends (suc fuel) argc ret s low =
    let n = length s in
    let stops = b'|' ∷ b')' ∷ b'&' ∷ b';' ∷ [] in
    let (stop, s1) = peek s stops in
    let (tok, q, s2) = gettoken s1 in
    let short = peek-le s stops in
    Ends-if n stop (λ e. inl (ret, s1, short, refl))
      (λ e.
        Ends-if n (tok == 0) (λ f. inl (ret, s2, omega (arith, short, gettoken-le s1), refl))
          (λ given.
            let shorter : length s2 < n = omega (arith, token-length s1 given, short) in
            Ends-if n (not (tok == b'a')) (λ f. inr refl)
              (λ f.
                Ends-if n (leb maxargs (argc + 1)) (λ g. inr refl)
                  (λ g.
                    Ends-bind _ (length s2) n (parseredirs-Ends (add_arg q ret) s2)
                      (λ ret1 s3 below. Ends-le (length s3) n (omega (arith, below, shorter)) (
                        args_from-Ends fuel (argc + 1) ret1 s3
                          (omega (arith, below, shorter, low))))))))

module _ (line : List ℕ → Outcome (Cmd × List ℕ)) (n : ℕ) where
  -- `line` ends on texts of fewer than n characters.
  abbrev pub LineEnds : Type 0
  LineEnds = (s : List ℕ) → length s < n → Ends (length s) (line s)

  parseblock-Ends : LineEnds → (s : List ℕ) → length s ≤ n → Ends (length s) (parseblock line s)
  unfolding parseblock
  parseblock-Ends h s low =
      let m = length s in
      let (paren, s1) = peek s (b'(' ∷ []) in
      Ends-if m (not paren) (λ e. inr refl)
        (λ e.
          let shorter : length (gettoken s1).2 < m =
            peek-length s (b'(' ∷ []) (ground (arith, e)) in
          Ends-bind _ (length (gettoken s1).2) m (h (gettoken s1).2 (omega (arith, shorter, low)))
            (λ cmd s2 below.
              let (close, s3) = peek s2 (b')' ∷ []) in
              Ends-if m (not close) (λ f. inr refl)
                (λ f.
                  Ends-le (length (gettoken s3).2) m
                    (omega (arith, below, shorter, gettoken-le s3, peek-le s2 (b')' ∷ [])))
                    (parseredirs-Ends cmd (gettoken s3).2))))

  parseexec-Ends : LineEnds → (s : List ℕ) → length s ≤ n → Ends (length s) (parseexec line s)
  unfolding parseexec
  parseexec-Ends h s low =
      let (paren, s1) = peek s (b'(' ∷ []) in
      let short = peek-le s (b'(' ∷ []) in
      Ends-le (length s1) (length s) short (
        Ends-if (length s1) paren (λ e. parseblock-Ends h s1 (omega (arith, short, low)))
          (λ e. Ends-bind _ (length s1) (length s1) (parseredirs-Ends (exec []) s1) (λ ret s2 below.
            Ends-le (length s2) (length s1) below
              (args_from-Ends (suc (length s2)) 0 ret s2 (omega arith)))))

  pub pipe_from-Ends :
      LineEnds
      → (fuel : ℕ) (s : List ℕ) → length s < fuel
      → length s ≤ n
      → Ends (length s) (pipe_from line fuel s)
  unfolding pipe_from
  pipe_from-Ends h zero s enough low = absurd (omega (arith, enough))
  pipe_from-Ends h (suc fuel) s enough low =
      Ends-bind _ (length s) (length s) (parseexec-Ends h s low) (λ cmd s1 below.
        let (more, s2) = peek s1 (b'|' ∷ []) in
        let s3 = (gettoken s2).2 in
        Ends-if (length s) more
          (λ e.
            let shorter = peek-length s1 (b'|' ∷ []) e in
            Ends-bind _ (length s3) (length s)
              (pipe_from-Ends h fuel s3 (omega (arith, shorter, below, enough))
                (omega (arith, shorter, below, low)))
              (λ right s4 last.
                inl (pipe cmd right, s4, omega (arith, last, shorter, below), refl)))
          (λ e. inl (cmd, s2, omega (arith, below, peek-le s1 (b'|' ∷ [])), refl)))

pub back_from-Ends :
    (fuel : ℕ) (cmd : Cmd) (s : List ℕ) → length s < fuel → Ends (length s) (back_from fuel cmd s)
unfolding back_from
back_from-Ends zero cmd s low = absurd (omega (arith, low))
back_from-Ends (suc fuel) cmd s low =
    let (more, s1) = peek s (b'&' ∷ []) in
    let s2 = (gettoken s1).2 in
    Ends-if (length s) more
      (λ e.
        let shorter = peek-length s (b'&' ∷ []) e in
        Ends-le (length s2) (length s) (omega (arith, shorter))
          (back_from-Ends fuel (back cmd) s2 (omega (arith, shorter, low))))
      (λ e. inl (cmd, s1, peek-le s (b'&' ∷ []), refl))

pub parseline-Ends : (fuel : ℕ) (s : List ℕ) → length s < fuel → Ends (length s) (parseline fuel s)
unfolding parseline parsepipe
parseline-Ends zero s low = absurd (omega (arith, low))
parseline-Ends (suc fuel) s low =
    let n = length s in
    Ends-bind _ n n
      (pipe_from-Ends (parseline fuel) fuel (λ t below. parseline-Ends fuel t below) (suc n) s
        (omega arith) (omega (arith, low)))
      (λ first s1 short.
        Ends-bind _ (length s1) n (back_from-Ends (suc (length s1)) first s1 (omega arith))
          (λ cmd s2 below.
            let (more, s3) = peek s2 (b';' ∷ []) in
            let s4 = (gettoken s3).2 in
            Ends-if n more
              (λ e.
                let shorter = peek-length s2 (b';' ∷ []) e in
                Ends-bind _ (length s4) n
                  (parseline-Ends fuel s4 (omega (arith, shorter, below, short, low)))
                  (λ right s5 last.
                    inl (list cmd right, s5, omega (arith, last, shorter, below, short), refl)))
              (λ e. inl (cmd, s3, omega (arith, peek-le s2 (b';' ∷ []), below, short), refl))))

finish-cases : (cmd : Cmd) (s : List ℕ) → (finish cmd s ≡ done cmd) ⊎ (finish cmd s ≡ panic)
finish-cases cmd [] = inl refl
finish-cases cmd (c ∷ s) = inr refl

-- `parsecmd` ends on every text, with a command or with a syntax error.
pub parsecmd-ends : (s : List ℕ) → ((cmd : Cmd) × (parsecmd s ≡ done cmd)) ⊎ (parsecmd s ≡ panic)
unfolding parsecmd
parsecmd-ends s = elim (parseline-Ends (suc (length s)) s (omega arith)) [
  | inr e ↦ inr (rw e refl)
  | inl (cmd, t, short, e) ↦
      let (found, t1) = peek t [] in
      let next : parsecmd s ≡ finish cmd t1 = rw e refl in
      elim (finish-cases cmd t1) [ inl f ↦ inl (cmd, next ∙ f) | inr f ↦ inr (next ∙ f) ]
]
