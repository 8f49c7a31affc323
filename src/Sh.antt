-- ===== src/Sh.antt =====
-- user/sh.c: the parser of command lines. The text from the pointer to its end is the list of its
-- characters, none of which is 0. A word is the list of its characters, as `nulterminate` leaves it:
-- that stores a 0 behind each word, after the parse, where a blank, a symbol or the end was.
pub mod Tokens
pub mod Ends
pub mod Fuel
pub mod Written
pub mod Reads
pub mod Element
pub mod Rounds
pub mod RoundTrip
use gem_os_extension.Base.{
  ℕ, zero, suc, ◌+◌, Bool, true, false, ◌||◌, not, List, [], ◌∷◌, ◌++◌, length, leb, ◌==◌,
  if◌then◌else◌, Outcome, done, panic, spin, ◌>>=◌,
}

abbrev pub maxargs : ℕ
maxargs = 10

-- `struct cmd` and the structures that begin like it.
pub data Cmd : Type 0 where
  exec : List (List ℕ) → Cmd
  redir : Cmd → List ℕ → ℕ → ℕ → Cmd
  pipe : Cmd → Cmd → Cmd
  list : Cmd → Cmd → Cmd
  back : Cmd → Cmd

-- The constructors; the fields of the structure of `execcmd` are filled in later.
abbrev pub execcmd : Cmd
execcmd = exec []

abbrev pub redircmd : Cmd → List ℕ → ℕ → ℕ → Cmd
redircmd subcmd file mode fd = redir subcmd file mode fd

abbrev pub pipecmd : Cmd → Cmd → Cmd
pipecmd left right = pipe left right

abbrev pub listcmd : Cmd → Cmd → Cmd
listcmd left right = list left right

abbrev pub backcmd : Cmd → Cmd
backcmd subcmd = back subcmd

-- Blank, tab, carriage return, newline and vertical tab.
abbrev pub whitespace : List ℕ
whitespace = 32 ∷ 9 ∷ 13 ∷ 10 ∷ 11 ∷ []

abbrev pub symbols : List ℕ
symbols = b'<' ∷ b'|' ∷ b'>' ∷ b'&' ∷ b';' ∷ b'(' ∷ b')' ∷ []

-- Whether `strchr` finds the character.
abbrev pub strchr : List ℕ → ℕ → Bool
strchr [] c = false
strchr (d ∷ s) c = let rest = strchr s c in if d == c then true else rest

abbrev pub skip_white : List ℕ → List ℕ
skip_white [] = []
skip_white (c ∷ s) = let rest = skip_white s in if strchr whitespace c then rest else c ∷ s

-- The word at the front, and what is behind it.
abbrev pub word : List ℕ → List ℕ × List ℕ
word [] = ([], [])
word (c ∷ s) =
    let (w, rest) = word s in
    if strchr whitespace c
    then ([], c ∷ s)
    else if strchr symbols c
    then ([], c ∷ s)
    else (c ∷ w, rest)

-- A `>` was read.
abbrev pub second_sign : List ℕ → ℕ × List ℕ
second_sign [] = (b'>', [])
second_sign (c ∷ s) = if c == b'>' then (b'+', s) else (b'>', c ∷ s)

-- The `switch` of `gettoken`: the kind of the token, its text if it is a word, and what is behind it.
unfoldable pub token_at : List ℕ → ℕ × List ℕ × List ℕ
token_at [] = (0, [], [])
token_at (c ∷ s) =
    let (sign, behind) = second_sign s in
    let (w, rest) = word (c ∷ s) in
    if c == b'|' || c == b'(' || c == b')' || c == b';' || c == b'&' || c == b'<'
    then (c, [], s)
    else if c == b'>'
    then (sign, [], behind)
    else (b'a', w, rest)

unfoldable pub gettoken : List ℕ → ℕ × List ℕ × List ℕ
gettoken s = let (ret, q, rest) = token_at (skip_white s) in (ret, q, skip_white rest)

abbrev pub starts : List ℕ → List ℕ → Bool
starts toks [] = false
starts toks (c ∷ s) = strchr toks c

unfoldable pub peek : List ℕ → List ℕ → Bool × List ℕ
peek s toks = let t = skip_white s in (starts toks t, t)

-- The `switch` of `parseredirs`.
abbrev pub redirected : ℕ → Cmd → List ℕ → Cmd
redirected tok cmd q =
    if tok == b'<'
    then redircmd cmd q 0 0
    else if tok == b'>'
    then redircmd cmd q 1537 1
    else if tok == b'+'
    then redircmd cmd q 513 1
    else cmd

-- The loop of `parseredirs` on fuel.
unfoldable pub redirs_from : ℕ → Cmd → List ℕ → Outcome (Cmd × List ℕ)
redirs_from zero cmd s = spin
redirs_from (suc fuel) cmd s =
    let (more, s1) = peek s (b'<' ∷ b'>' ∷ []) in
    let (tok, none_here, s2) = gettoken s1 in
    let (kind, q, s3) = gettoken s2 in
    let rest = redirs_from fuel (redirected tok cmd q) s3 in
    if not more then done (cmd, s1) else if not (kind == b'a') then panic else rest

unfoldable pub parseredirs : Cmd → List ℕ → Outcome (Cmd × List ℕ)
parseredirs cmd s = redirs_from (suc (length s)) cmd s

-- `cmd->argv[argc] = q`: the structure is the innermost of those that the redirections wrap.
abbrev pub add_arg : List ℕ → Cmd → Cmd
add_arg q (exec argv) = exec (argv ++ q ∷ [])
add_arg q (redir cmd file mode fd) = redir (add_arg q cmd) file mode fd
add_arg q (pipe left right) = pipe left right
add_arg q (list left right) = list left right
add_arg q (back cmd) = back cmd

-- The loop of `parseexec` on fuel.
unfoldable pub args_from : ℕ → ℕ → Cmd → List ℕ → Outcome (Cmd × List ℕ)
args_from zero argc ret s = spin
args_from (suc fuel) argc ret s =
    let (stop, s1) = peek s (b'|' ∷ b')' ∷ b'&' ∷ b';' ∷ []) in
    let (tok, q, s2) = gettoken s1 in
    let rest = parseredirs (add_arg q ret) s2 >>= λ (ret1, s3). args_from fuel (argc + 1) ret1 s3 in
    if stop
    then done (ret, s1)
    else if tok == 0
    then done (ret, s2)
    else if not (tok == b'a')
    then panic
    else if leb maxargs (argc + 1)
    then panic
    else rest

-- `line` is the call of `parseline`.
unfoldable pub parseblock : (List ℕ → Outcome (Cmd × List ℕ)) → List ℕ → Outcome (Cmd × List ℕ)
parseblock line s =
    let (paren, s1) = peek s (b'(' ∷ []) in
    let inner = line (gettoken s1).2 >>= λ (cmd, s2).
    let (close, s3) = peek s2 (b')' ∷ []) in
    if not close then panic else parseredirs cmd (gettoken s3).2 in
    if not paren then panic else inner

unfoldable pub parseexec : (List ℕ → Outcome (Cmd × List ℕ)) → List ℕ → Outcome (Cmd × List ℕ)
parseexec line s =
    let (paren, s1) = peek s (b'(' ∷ []) in
    let plain = parseredirs execcmd s1 >>= λ (ret, s2). args_from (suc (length s2)) 0 ret s2 in
    if paren then parseblock line s1 else plain

-- `parsepipe` on fuel.
unfoldable pub pipe_from : (List ℕ → Outcome (Cmd × List ℕ)) → ℕ → List ℕ → Outcome (Cmd × List ℕ)
pipe_from line zero s = spin
pipe_from line (suc fuel) s = parseexec line s >>= λ (cmd, s1).
    let (more, s2) = peek s1 (b'|' ∷ []) in
    let piped =
      pipe_from line fuel (gettoken s2).2 >>= λ (right, s3). done (pipecmd cmd right, s3) in
    if more then piped else done (cmd, s2)

unfoldable pub parsepipe : (List ℕ → Outcome (Cmd × List ℕ)) → List ℕ → Outcome (Cmd × List ℕ)
parsepipe line s = pipe_from line (suc (length s)) s

-- The loop of `parseline` on fuel.
unfoldable pub back_from : ℕ → Cmd → List ℕ → Outcome (Cmd × List ℕ)
back_from zero cmd s = spin
back_from (suc fuel) cmd s =
    let (more, s1) = peek s (b'&' ∷ []) in
    let rest = back_from fuel (backcmd cmd) (gettoken s1).2 in if more then rest else done (cmd, s1)

-- `parseline`; each call of it by itself or by `parseblock` takes fuel.
unfoldable pub parseline : ℕ → List ℕ → Outcome (Cmd × List ℕ)
parseline zero s = spin
parseline (suc fuel) s = parsepipe (parseline fuel) s >>= λ (first, s1).
    back_from (suc (length s1)) first s1 >>= λ (cmd, s2).
    let (more, s3) = peek s2 (b';' ∷ []) in
    let listed = parseline fuel (gettoken s3).2 >>= λ (right, s4). done (listcmd cmd right, s4) in
    if more then listed else done (cmd, s3)

-- Text that is left over is a syntax error.
abbrev pub finish : Cmd → List ℕ → Outcome Cmd
finish cmd [] = done cmd
finish cmd (c ∷ s) = panic

unfoldable pub parsecmd : List ℕ → Outcome Cmd
parsecmd s =
    parseline (suc (length s)) s >>= λ (cmd, s1). let (found, s2) = peek s1 [] in finish cmd s2
