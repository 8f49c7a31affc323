-- ===== src/Sh/Reads.antt =====
-- user/sh.c: the parser on commands that are written out, up to the elements of a pipe.
use gem_os_extension.Base.{
  ℕ, suc, ◌+◌, ◌<◌, ◌≡◌, inl, inr, refl, sym, ap, ◌∙◌, Bool, true, false, not, List, [], ◌∷◌, ◌++◌,
  length, length-append, All, leb, ◌==◌, if◌then◌else◌, Outcome, done, panic, ◌>>=◌, arith,
}
use mathlib.Core.List.{append_assoc, append-nil}
use gem_os_extension.Sh.{
  maxargs, Cmd, exec, redir, whitespace, strchr, skip_white, gettoken, token_at, starts, peek,
  redirected, redirs_from, parseredirs, add_arg, args_from,
}
use gem_os_extension.Sh.Fuel.{redirs_from-fuel, more_args, more_args-fuel}
use gem_os_extension.Sh.Written.{
  IsWord, IsMode, word_then, args_then, sign_then, gettoken-word, IsNext, ends, word-IsNext,
  args-IsNext, word_then-length, sign_then-length,
}

pub parseredirs-stop :
    (cmd : Cmd) (t : List ℕ)
    → skip_white t ≡ t
    → starts (b'<' ∷ b'>' ∷ []) t ≡ false
    → parseredirs cmd t ≡ done (cmd, t)
unfolding parseredirs redirs_from peek
parseredirs-stop cmd t next stop =
    let off : starts (b'<' ∷ b'>' ∷ []) (skip_white t) ≡ false =
      ap (starts (b'<' ∷ b'>' ∷ [])) next ∙ stop in
    rw off (ap (λ s. done (cmd, s)) next)

-- The sign of a redirection.
gettoken-sign :
    (mode fd : ℕ) (cmd : Cmd) (w t : List ℕ)
    → IsMode mode fd
    → IsWord w
    → ((peek (sign_then mode (word_then w t)) (b'<' ∷ b'>' ∷ []))
        ≡ (true, sign_then mode (word_then w t)))
      × ((gettoken (sign_then mode (word_then w t))).2 ≡ word_then w t)
      × (redirected (gettoken (sign_then mode (word_then w t))).0 cmd w ≡ redir cmd w mode fd)
unfolding gettoken token_at peek
gettoken-sign mode fd cmd [] t m word = absurd word
gettoken-sign mode fd cmd (c ∷ w) t (inl (m, f)) word =
    let next = (word-IsNext (c ∷ w) t word).0 in rw (m, f) (refl, next, refl)
gettoken-sign mode fd cmd (c ∷ w) t (inr (inl (m, f))) word =
    let next = (word-IsNext (c ∷ w) t word).0 in
    let single : c == b'>' ≡ false = ground (arith, word.0.1) in
    rw (m, f) (refl, rw single next, rw single refl)
gettoken-sign mode fd cmd (c ∷ w) t (inr (inr (m, f))) word =
    let next = (word-IsNext (c ∷ w) t word).0 in rw (m, f) (refl, next, refl)

-- A round of `parseredirs` behind its `peek`, and behind the sign.
abbrev after_sign : ℕ → ℕ → Cmd → ℕ × List ℕ × List ℕ → Outcome (Cmd × List ℕ)
after_sign fuel tok cmd r =
    if not (r.0 == b'a') then panic else redirs_from fuel (redirected tok cmd r.1) r.2

abbrev redirs_round : ℕ → Cmd → Bool × List ℕ → Outcome (Cmd × List ℕ)
redirs_round fuel cmd r =
    if not r.0
    then done (cmd, r.1)
    else after_sign fuel (gettoken r.1).0 cmd (gettoken (gettoken r.1).2)

redirs_from-round :
    (fuel : ℕ) (cmd : Cmd) (s : List ℕ)
    → redirs_from (suc fuel) cmd s ≡ redirs_round fuel cmd (peek s (b'<' ∷ b'>' ∷ []))
unfolding redirs_from
redirs_from-round fuel cmd s = refl

pub parseredirs-sign :
    (mode fd : ℕ) (cmd : Cmd) (w t : List ℕ)
    → IsMode mode fd
    → IsWord w
    → skip_white t ≡ t
    → parseredirs cmd (sign_then mode (word_then w t)) ≡ parseredirs (redir cmd w mode fd) t
unfolding parseredirs
parseredirs-sign mode fd cmd w t m word next =
    let s = sign_then mode (word_then w t) in
    let (seen, behind, made) = gettoken-sign mode fd cmd w t m word in
    let file : gettoken (gettoken s).2 ≡ (b'a', w, t) =
      ap gettoken behind ∙ gettoken-word w t word ∙ ap (λ u. (b'a', w, u)) next in
    let longer : length t < length s =
      omega (arith, sign_then-length mode (word_then w t), word_then-length w t) in
    redirs_from-round (length s) cmd s
    ∙ ap (redirs_round (length s) cmd) seen
    ∙ ap (after_sign (length s) (gettoken s).0 cmd) file
    ∙ ap (λ c. redirs_from (length s) c t) made
    ∙ redirs_from-fuel (length s) (suc (length t)) (redir cmd w mode fd) t longer (omega arith)

peek-word :
    (w t : List ℕ)
    → IsWord w
    → peek (word_then w t) (b'|' ∷ b')' ∷ b'&' ∷ b';' ∷ []) ≡ (false, word_then w t)
unfolding peek
peek-word [] t word = absurd word
peek-word (c ∷ w) t word =
    let (black, plain) = word.0 in
    let no_stop : strchr (b'|' ∷ b')' ∷ b'&' ∷ b';' ∷ []) c ≡ false = ground (arith, plain) in
    rw (black, no_stop) refl

no_sign : (w t : List ℕ) → IsWord w → starts (b'<' ∷ b'>' ∷ []) (word_then w t) ≡ false
no_sign [] t word = absurd word
no_sign (c ∷ w) t word = let (black, plain) = word.0 in ground (arith, plain)

-- A round of the loop of `parseexec` behind its `peek`, and behind the token.
abbrev args_token : ℕ → ℕ → Cmd → ℕ × List ℕ × List ℕ → Outcome (Cmd × List ℕ)
args_token fuel argc ret r =
    if r.0 == 0
    then done (ret, r.2)
    else if not (r.0 == b'a')
    then panic
    else if leb maxargs (argc + 1)
    then panic
    else parseredirs (add_arg r.1 ret) r.2 >>= λ (ret1, s). args_from fuel (argc + 1) ret1 s

abbrev args_round : ℕ → ℕ → Cmd → Bool × List ℕ → Outcome (Cmd × List ℕ)
args_round fuel argc ret r =
    if r.0 then done (ret, r.1) else args_token fuel argc ret (gettoken r.1)

args_from-round :
    (fuel argc : ℕ) (ret : Cmd) (s : List ℕ)
    → args_from (suc fuel) argc ret s
      ≡ args_round fuel argc ret (peek s (b'|' ∷ b')' ∷ b'&' ∷ b';' ∷ []))
unfolding args_from
args_from-round fuel argc ret s = refl

-- The loop on a word.
args_from-word :
    (fuel argc : ℕ) (ret : Cmd) (w t : List ℕ)
    → IsWord w
    → argc + 1 < maxargs
    → skip_white t ≡ t
    → args_from (suc fuel) argc ret (word_then w t)
      ≡ (parseredirs (add_arg w ret) t >>= λ (ret1, s). args_from fuel (argc + 1) ret1 s)
args_from-word fuel argc ret w t word few next =
    let room : leb maxargs (argc + 1) ≡ false = ground (arith, few) in
    args_from-round fuel argc ret (word_then w t)
    ∙ ap (args_round fuel argc ret) (peek-word w t word)
    ∙ ap (args_token fuel argc ret) (gettoken-word w t word)
    ∙ ap (λ u. args_token fuel argc ret (b'a', w, u)) next
    ∙ rw room refl

-- At the end of an element.
pub more_args-stop :
    (argc : ℕ) (cmd : Cmd) (t : List ℕ) → ends t ≡ true → more_args argc (cmd, t) ≡ done (cmd, t)
unfolding args_from peek gettoken token_at
more_args-stop argc cmd [] h = refl
more_args-stop argc cmd (c ∷ t) h =
    let black : strchr whitespace c ≡ false = ground (arith, h) in rw (black, h) refl

-- Words behind words that are read.
pub args_then-more :
    (argv rest : List (List ℕ)) (t : List ℕ)
    → All IsWord rest
    → length argv + length rest < maxargs
    → IsNext t
    → (parseredirs (exec argv) (args_then rest t) >>= more_args (length argv))
      ≡ (parseredirs (exec (argv ++ rest)) t >>= more_args (length (argv ++ rest)))
args_then-more argv [] t words few next =
    ap (λ (l : List (List ℕ)). parseredirs (exec l) t >>= more_args (length l))
      (sym (append-nil argv))
args_then-more argv (w ∷ rest) t words few next =
    let behind = args_then rest t in
    let s = word_then w behind in
    let tight = (args-IsNext rest t words.1 next).0 in
    let longer : length behind < length s = omega (arith, word_then-length w behind) in
    let one_more : length (argv ++ w ∷ []) ≡ length argv + 1 = length-append argv (w ∷ []) in
    ap (λ r. r >>= more_args (length argv))
      (parseredirs-stop (exec argv) s (word-IsNext w behind words.0).0 (no_sign w behind words.0))
    ∙ args_from-word (length s) (length argv) (exec argv) w behind words.0 (omega (arith, few))
        tight
    ∙ more_args-fuel (length s) (length argv + 1) (exec (argv ++ w ∷ [])) behind longer
    ∙ ap (λ m. parseredirs (exec (argv ++ w ∷ [])) behind >>= more_args m) (sym one_more)
    ∙ args_then-more (argv ++ w ∷ []) rest t words.1 (omega (arith, one_more, few)) next
    ∙ ap (λ (l : List (List ℕ)). parseredirs (exec l) t >>= more_args (length l))
        (append_assoc argv (w ∷ []) rest)
