-- ===== src/Sh/Fuel.antt =====
-- user/sh.c: enough fuel for a loop of the parser is as good as any other.
use gem_os_extension.Base.{
  ℕ, zero, suc, ◌+◌, ◌<◌, ◌≤◌, ◌≡◌, inl, inr, refl, sym, ap, ◌∙◌, Bool, true, false, not, List, [],
  ◌∷◌, length, leb, ◌==◌, if◌then◌else◌, Outcome, done, panic, spin, ◌>>=◌, arith,
}
use gem_os_extension.Sh.{
  maxargs, Cmd, back, gettoken, peek, redirected, redirs_from, parseredirs, add_arg, args_from,
  back_from,
}
use gem_os_extension.Sh.Tokens.{token-length, gettoken-le, peek-length, peek-le}
use gem_os_extension.Sh.Ends.{Ends, parseredirs-Ends}

if-same :
    (b : Bool) {r q r1 q1 : Outcome (Cmd × List ℕ)}
    → (b ≡ true → r ≡ r1)
    → (b ≡ false → q ≡ q1)
    → (if b then r else q) ≡ (if b then r1 else q1)
if-same true met unmet = met refl
if-same false met unmet = unmet refl

bind-same :
    (n : ℕ) (r : Outcome (Cmd × List ℕ)) (f g : Cmd × List ℕ → Outcome (Cmd × List ℕ))
    → Ends n r
    → ((c : Cmd) (t : List ℕ) → length t ≤ n → f (c, t) ≡ g (c, t))
    → (r >>= f) ≡ (r >>= g)
bind-same n r f g (inl (c, t, short, e)) same =
    ap (λ x. x >>= f) e ∙ same c t short ∙ ap (λ x. x >>= g) (sym e)
bind-same n r f g (inr e) same = ap (λ x. x >>= f) e ∙ ap (λ x. x >>= g) (sym e)

pub bind-bind :
    (r : Outcome (Cmd × List ℕ)) (f g : Cmd × List ℕ → Outcome (Cmd × List ℕ))
    → (r >>= f >>= g) ≡ (r >>= λ x. f x >>= g)
bind-bind (done x) f g = refl
bind-bind panic f g = refl
bind-bind spin f g = refl

pub bind-done : (r : Outcome (Cmd × List ℕ)) → (r >>= λ x. done x) ≡ r
bind-done (done x) = refl
bind-done panic = refl
bind-done spin = refl

pub redirs_from-fuel :
    (fuel fuel1 : ℕ) (cmd : Cmd) (s : List ℕ)
    → length s < fuel
    → length s < fuel1
    → redirs_from fuel cmd s ≡ redirs_from fuel1 cmd s
unfolding redirs_from
redirs_from-fuel zero fuel1 cmd s low low1 = absurd (omega (arith, low))
redirs_from-fuel (suc fuel) zero cmd s low low1 = absurd (omega (arith, low1))
redirs_from-fuel (suc fuel) (suc fuel1) cmd s low low1 =
    let (more, s1) = peek s (b'<' ∷ b'>' ∷ []) in
    let (tok, none_here, s2) = gettoken s1 in
    let (kind, q, s3) = gettoken s2 in
    if-same (not more) (λ e. refl)
      (λ e.
        let shorter : length s3 < length s =
          omega (arith, peek-length s (b'<' ∷ b'>' ∷ []) (ground (arith, e)), gettoken-le s2) in
        if-same (not (kind == b'a')) (λ f. refl)
          (λ f.
            redirs_from-fuel fuel fuel1 (redirected tok cmd q) s3 (omega (arith, shorter, low))
              (omega (arith, shorter, low1))))

pub args_from-fuel :
    (fuel fuel1 argc : ℕ) (ret : Cmd) (s : List ℕ)
    → length s < fuel
    → length s < fuel1
    → args_from fuel argc ret s ≡ args_from fuel1 argc ret s
unfolding args_from
args_from-fuel zero fuel1 argc ret s low low1 = absurd (omega (arith, low))
args_from-fuel (suc fuel) zero argc ret s low low1 = absurd (omega (arith, low1))
args_from-fuel (suc fuel) (suc fuel1) argc ret s low low1 =
    let stops = b'|' ∷ b')' ∷ b'&' ∷ b';' ∷ [] in
    let (stop, s1) = peek s stops in
    let (tok, q, s2) = gettoken s1 in
    if-same stop (λ e. refl)
      (λ e.
        if-same (tok == 0) (λ f. refl)
          (λ given.
            let shorter : length s2 < length s =
              omega (arith, token-length s1 given, peek-le s stops) in
            if-same (not (tok == b'a')) (λ f. refl)
              (λ f.
                if-same (leb maxargs (argc + 1)) (λ g. refl)
                  (λ g.
                    bind-same (length s2) (parseredirs (add_arg q ret) s2) _ _
                      (parseredirs-Ends (add_arg q ret) s2)
                      (λ ret1 s3 below.
                        args_from-fuel fuel fuel1 (argc + 1) ret1 s3
                          (omega (arith, below, shorter, low))
                          (omega (arith, below, shorter, low1)))))))

pub back_from-fuel :
    (fuel fuel1 : ℕ) (cmd : Cmd) (s : List ℕ)
    → length s < fuel
    → length s < fuel1
    → back_from fuel cmd s ≡ back_from fuel1 cmd s
unfolding back_from
back_from-fuel zero fuel1 cmd s low low1 = absurd (omega (arith, low))
back_from-fuel (suc fuel) zero cmd s low low1 = absurd (omega (arith, low1))
back_from-fuel (suc fuel) (suc fuel1) cmd s low low1 =
    let (more, s1) = peek s (b'&' ∷ []) in
    if-same more
      (λ e.
        let shorter = peek-length s (b'&' ∷ []) e in
        back_from-fuel fuel fuel1 (back cmd) (gettoken s1).2 (omega (arith, shorter, low))
          (omega (arith, shorter, low1)))
      (λ e. refl)

-- The loop of `parseexec` behind the redirections.
abbrev pub more_args : ℕ → Cmd × List ℕ → Outcome (Cmd × List ℕ)
more_args argc r = args_from (suc (length r.1)) argc r.0 r.1

pub more_args-fuel :
    (fuel argc : ℕ) (cmd : Cmd) (s : List ℕ)
    → length s < fuel
    → (parseredirs cmd s >>= λ (ret, t). args_from fuel argc ret t)
      ≡ (parseredirs cmd s >>= more_args argc)
more_args-fuel fuel argc cmd s low =
    bind-same (length s) (parseredirs cmd s) _ _ (parseredirs-Ends cmd s) (λ ret t short.
      args_from-fuel fuel (suc (length t)) argc ret t (omega (arith, short, low)) (omega arith))
