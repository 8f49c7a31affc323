-- ===== src/Sh/Element.antt =====
-- user/sh.c: `parseexec` on the elements of a pipe.
use gem_os_extension.Base.{
  ℕ, ◌≤◌, ◌≡◌, refl, ap, ◌∙◌, Bool, true, false, not, List, [], ◌∷◌, length, if◌then◌else◌, Outcome,
  done, panic, ◌>>=◌, arith,
}
use gem_os_extension.Sh.{
  Cmd, exec, redir, pipe, list, back, skip_white, gettoken, token_at, starts, peek, parseredirs,
  parseblock, parseexec,
}
use gem_os_extension.Sh.Fuel.{more_args}
use gem_os_extension.Sh.Written.{
  IsCmd, word_then, args_then, sign_then, write, IsNext, ends, ends-IsNext, args-IsNext,
  sign-IsNext, write-skip,
}
use gem_os_extension.Sh.{parseline}
use gem_os_extension.Sh.Reads.{parseredirs-stop, parseredirs-sign, more_args-stop, args_then-more}

-- What `parseexec` does behind the redirections: only words may follow words.
abbrev pub more : Cmd → Cmd × List ℕ → Outcome (Cmd × List ℕ)
more (exec argv) r = more_args (length argv) r
more (redir cmd file mode fd) r = more cmd r
more (pipe left right) r = done r
more (list left right) r = done r
more (back cmd) r = done r

-- `parseexec` reads the command and the redirections behind it.
abbrev pub Element : Cmd → Type 0
Element cmd =
    (n : ℕ) (t : List ℕ)
    → IsNext t
    → length (write 0 cmd t) ≤ n
    → parseexec (parseline n) (write 0 cmd t) ≡ (parseredirs cmd t >>= more cmd)

module _ (line : List ℕ → Outcome (Cmd × List ℕ)) where
  abbrev exec_round : Bool × List ℕ → Outcome (Cmd × List ℕ)
  exec_round r = if r.0 then parseblock line r.1 else (parseredirs (exec []) r.1 >>= more_args 0)

  parseexec-round : (s : List ℕ) → parseexec line s ≡ exec_round (peek s (b'(' ∷ []))
  unfolding parseexec
  parseexec-round s = refl

  peek-next : (s : List ℕ) → IsNext s → peek s (b'(' ∷ []) ≡ (false, s)
  unfolding peek
  peek-next s (skipped, plain) = rw skipped (rw plain refl)

  parseexec-args :
      (argv : List (List ℕ)) (t : List ℕ)
      → IsCmd (exec argv)
      → IsNext t
      → parseexec line (args_then argv t) ≡ (parseredirs (exec argv) t >>= more_args (length argv))
  parseexec-args argv t h next =
      parseexec-round (args_then argv t)
      ∙ ap exec_round (peek-next (args_then argv t) (args-IsNext argv t h.0 next))
      ∙ args_then-more [] argv t h.0 (omega (arith, h.1)) next

  -- What stands between the parentheses is read by `line`.
  abbrev close_paren : Cmd × List ℕ → Outcome (Cmd × List ℕ)
  close_paren r =
      let (close, s) = peek r.1 (b')' ∷ []) in
      if not close then panic else parseredirs r.0 (gettoken s).2

  parseexec-open :
      (s : List ℕ) → parseexec line (b'(' ∷ 32 ∷ s) ≡ (line (skip_white s) >>= close_paren)
  unfolding parseexec parseblock peek gettoken token_at
  parseexec-open s = refl

  close_paren-closed :
      (cmd : Cmd) (t : List ℕ) → close_paren (cmd, b')' ∷ 32 ∷ t) ≡ parseredirs cmd (skip_white t)
  unfolding peek gettoken token_at
  close_paren-closed cmd t = refl

  pub parseexec-parens :
      (cmd : Cmd) (t : List ℕ)
      → IsCmd cmd
      → IsNext t
      → line (write 3 cmd (b')' ∷ 32 ∷ t)) ≡ done (cmd, b')' ∷ 32 ∷ t)
      → parseexec line (b'(' ∷ 32 ∷ write 3 cmd (b')' ∷ 32 ∷ t)) ≡ parseredirs cmd t
  parseexec-parens cmd t h next read =
      parseexec-open (write 3 cmd (b')' ∷ 32 ∷ t))
      ∙ ap (λ s. line s >>= close_paren) (write-skip 3 cmd (b')' ∷ 32 ∷ t) h (refl, refl))
      ∙ ap (λ r. r >>= close_paren) read
      ∙ close_paren-closed cmd t
      ∙ ap (parseredirs cmd) next.0

pub exec-Element : (argv : List (List ℕ)) → IsCmd (exec argv) → Element (exec argv)
exec-Element argv h n t next low = parseexec-args (parseline n) argv t h next

pub redir-Element :
    (cmd : Cmd) (file : List ℕ) (mode fd : ℕ)
    → IsCmd (redir cmd file mode fd)
    → Element cmd
    → Element (redir cmd file mode fd)
redir-Element cmd file mode fd (h, word, m) element n t next low =
    element n (sign_then mode (word_then file t)) (sign-IsNext mode fd (word_then file t) m) low
    ∙ ap (λ r. r >>= more cmd) (parseredirs-sign mode fd cmd file t m word next.0)

more-stop : (cmd cmd1 : Cmd) (t : List ℕ) → ends t ≡ true → more cmd (cmd1, t) ≡ done (cmd1, t)
more-stop (exec argv) cmd1 t h = more_args-stop (length argv) cmd1 t h
more-stop (redir cmd file mode fd) cmd1 t h = more-stop cmd cmd1 t h
more-stop (pipe left right) cmd1 t h = refl
more-stop (list left right) cmd1 t h = refl
more-stop (back cmd) cmd1 t h = refl

ends-no_sign : (t : List ℕ) → ends t ≡ true → starts (b'<' ∷ b'>' ∷ []) t ≡ false
ends-no_sign [] h = refl
ends-no_sign (c ∷ t) h = ground (arith, h)

-- Where an element ends, `parseexec` returns it.
pub Element-read :
    (cmd : Cmd) (n : ℕ) (t : List ℕ)
    → Element cmd
    → ends t ≡ true
    → length (write 0 cmd t) ≤ n
    → parseexec (parseline n) (write 0 cmd t) ≡ done (cmd, t)
Element-read cmd n t element end low =
    let next = ends-IsNext t end in
    element n t next low
    ∙ ap (λ r. r >>= more cmd) (parseredirs-stop cmd t next.0 (ends-no_sign t end))
    ∙ more-stop cmd cmd t end
