-- ===== src/Sh/Rounds.antt =====
-- user/sh.c: the rounds of the parser behind an element, a pipe and a line.
use gem_os_extension.Base.{
  ℕ, suc, ◌≡◌, ◌≢◌, refl, sym, Bool, true, false, List, [], ◌∷◌, length, ◌==◌, if◌then◌else◌,
  Outcome, done, ◌>>=◌, arith,
}
use gem_os_extension.Sh.{
  Cmd, pipe, list, gettoken, starts, peek, parseexec, pipe_from, parsepipe, back_from, parseline,
}
use gem_os_extension.Sh.Fuel.{bind-bind}
use gem_os_extension.Sh.Written.{ends, ends-IsNext}

-- The text behind a line: its end or the parenthesis that closes it.
abbrev pub closes : List ℕ → Bool
closes [] = true
closes (c ∷ t) = c == b')'

pub closes-ends : (t : List ℕ) → closes t ≡ true → ends t ≡ true
closes-ends [] h = refl
closes-ends (c ∷ t) h = ground (arith, h)

pub closes-other : (t : List ℕ) (c : ℕ) → c ≢ b')' → closes t ≡ true → starts (c ∷ []) t ≡ false
closes-other [] c other h = refl
closes-other (d ∷ t) c other h = ground (arith, other, h)

peek-missing : (t toks : List ℕ) → ends t ≡ true → starts toks t ≡ false → peek t toks ≡ (false, t)
unfolding peek
peek-missing t toks end missing = rw (ends-IsNext t end).0 (rw missing refl)

-- The rounds of the parser: behind an element, and behind a pipe.
abbrev pub pipe_round : ℕ → ℕ → Cmd × List ℕ → Outcome (Cmd × List ℕ)
pipe_round n fuel r =
    let (more_here, s) = peek r.1 (b'|' ∷ []) in
    if more_here
    then (pipe_from (parseline n) fuel (gettoken s).2 >>= λ (right, t). done (pipe r.0 right, t))
    else done (r.0, s)

abbrev pub backs : Cmd × List ℕ → Outcome (Cmd × List ℕ)
backs r = back_from (suc (length r.1)) r.0 r.1

abbrev pub list_round : ℕ → Cmd × List ℕ → Outcome (Cmd × List ℕ)
list_round n r =
    let (more_here, s) = peek r.1 (b';' ∷ []) in
    if more_here
    then (parseline n (gettoken s).2 >>= λ (right, t). done (list r.0 right, t))
    else done (r.0, s)

pub pipe_from-round :
    (n fuel : ℕ) (s : List ℕ)
    → pipe_from (parseline n) (suc fuel) s ≡ (parseexec (parseline n) s >>= pipe_round n fuel)
unfolding pipe_from
pipe_from-round n fuel s = refl

pub parseline-round :
    (n : ℕ) (s : List ℕ)
    → parseline (suc n) s ≡ (parsepipe (parseline n) s >>= backs >>= list_round n)
unfolding parseline
parseline-round n s = sym (bind-bind (parsepipe (parseline n) s) backs (list_round n))

pub pipe_round-stop :
    (n fuel : ℕ) (cmd : Cmd) (t : List ℕ)
    → ends t ≡ true
    → starts (b'|' ∷ []) t ≡ false
    → pipe_round n fuel (cmd, t) ≡ done (cmd, t)
pipe_round-stop n fuel cmd t end missing = rw (peek-missing t (b'|' ∷ []) end missing) refl

pub list_round-stop :
    (n : ℕ) (cmd : Cmd) (t : List ℕ) → closes t ≡ true → list_round n (cmd, t) ≡ done (cmd, t)
list_round-stop n cmd t end =
    rw (peek-missing t (b';' ∷ []) (closes-ends t end) (closes-other t b';' (ground arith) end))
      refl

pub backs-stop : (cmd : Cmd) (t : List ℕ) → closes t ≡ true → backs (cmd, t) ≡ done (cmd, t)
unfolding back_from
backs-stop cmd t end =
    rw (peek-missing t (b'&' ∷ []) (closes-ends t end) (closes-other t b'&' (ground arith) end))
      refl
