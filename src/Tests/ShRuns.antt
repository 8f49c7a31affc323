-- ===== src/Tests/ShRuns.antt =====
-- The parser of user/sh.c on `a <f | ( b; c& ) >>g`.
use gem_os_extension.Base.{ℕ, ◌≡◌, ◌⊎◌, inl, inr, refl, [], ◌∷◌, done, panic, arith}
use gem_os_extension.Sh.{Cmd, exec, redir, pipe, list, back, parsecmd}
use gem_os_extension.Sh.Ends.{parsecmd-ends}
use gem_os_extension.Sh.Written.{IsCmd, write}
use gem_os_extension.Sh.RoundTrip.{parsecmd-write}

abbrev letter : ℕ → Cmd
letter c = exec ((c ∷ []) ∷ [])

abbrev appended : Cmd
appended =
    pipe (redir (letter b'a') (b'f' ∷ []) 0 0)
      (redir (list (letter b'b') (back (letter b'c'))) (b'g' ∷ []) 513 1)

appended-IsCmd : IsCmd appended
appended-IsCmd = (
  (((((refl, refl), tt), tt), ground arith), ((refl, refl), tt), inl (refl, refl)),
  (
    (((((refl, refl), tt), tt), ground arith), ((((refl, refl), tt), tt), ground arith)),
    ((refl, refl), tt),
    inr (inr (refl, refl)),
  ),
)

parsecmd-write_example : parsecmd (write 3 appended []) ≡ done appended
parsecmd-write_example = parsecmd-write appended appended-IsCmd

-- A redirection without a file.
parsecmd-ends_example :
    ((cmd : Cmd) × (parsecmd (b'a' ∷ b'>' ∷ []) ≡ done cmd)) ⊎ (parsecmd (b'a' ∷ b'>' ∷ []) ≡ panic)
parsecmd-ends_example = parsecmd-ends (b'a' ∷ b'>' ∷ [])
