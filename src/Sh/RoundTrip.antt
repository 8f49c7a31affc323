-- ===== src/Sh/RoundTrip.antt =====
-- user/sh.c: the parser reads back every command that is written out.
use gem_os_extension.Base.{
  ℕ, zero, suc, ◌<◌, ◌≤◌, ◌≡◌, refl, sym, ap, ◌∙◌, subst, true, false, List, [], ◌∷◌, length,
  Outcome, done, ◌>>=◌, arith,
}
use gem_os_extension.Sh.{
  Cmd, exec, redir, pipe, list, back, gettoken, token_at, starts, peek, parseredirs, parseexec,
  pipe_from, parsepipe, back_from, parseline, finish, parsecmd,
}
use gem_os_extension.Sh.Fuel.{back_from-fuel, bind-done}
use gem_os_extension.Sh.Written.{IsCmd, write, ends, ends-IsNext, write-skip, write-length}
use gem_os_extension.Sh.Element.{
  more, Element, exec-Element, redir-Element, Element-read, parseexec-parens,
}
use gem_os_extension.Sh.Rounds.{
  closes, closes-ends, closes-other, pipe_round, backs, list_round, pipe_from-round,
  parseline-round, pipe_round-stop, list_round-stop, backs-stop,
}

-- What the parser reads where the grammar asks for a pipe, a pipe with `&` behind it, or a line.
abbrev Piped : Cmd → Type 0
Piped cmd =
    (n fuel : ℕ) (t : List ℕ)
    → ends t ≡ true
    → starts (b'|' ∷ []) t ≡ false
    → length (write 1 cmd t) < fuel
    → length (write 1 cmd t) ≤ n
    → pipe_from (parseline n) fuel (write 1 cmd t) ≡ done (cmd, t)

abbrev Backed : Cmd → Type 0
Backed cmd =
    (n : ℕ) (t : List ℕ)
    → ends t ≡ true
    → starts (b'|' ∷ []) t ≡ false
    → length (write 2 cmd t) ≤ n
    → (parsepipe (parseline n) (write 2 cmd t) >>= backs) ≡ backs (cmd, t)

abbrev Lined : Cmd → Type 0
Lined cmd =
    (n : ℕ) (t : List ℕ)
    → closes t ≡ true
    → length (write 3 cmd t) < n
    → parseline n (write 3 cmd t) ≡ done (cmd, t)

record Reads (cmd : Cmd) : Type 0 where
  element : Element cmd
  piped : Piped cmd
  backed : Backed cmd
  lined : Lined cmd

-- From one place of the grammar to the next, where the command is written the same way.
Element-Piped :
    (cmd : Cmd) → ((t : List ℕ) → write 1 cmd t ≡ write 0 cmd t) → Element cmd → Piped cmd
Element-Piped cmd same element n zero t end missing enough low = absurd (omega (arith, enough))
Element-Piped cmd same element n (suc fuel) t end missing enough low =
    ap (pipe_from (parseline n) (suc fuel)) (same t)
    ∙ pipe_from-round n fuel (write 0 cmd t)
    ∙ ap (λ r. r >>= pipe_round n fuel)
        (Element-read cmd n t element end (subst (λ s. length s ≤ n) (same t) low))
    ∙ pipe_round-stop n fuel cmd t end missing

Piped-Backed : (cmd : Cmd) → ((t : List ℕ) → write 2 cmd t ≡ write 1 cmd t) → Piped cmd → Backed cmd
unfolding parsepipe
Piped-Backed cmd same piped n t end missing low =
    let low1 = subst (λ s. length s ≤ n) (same t) low in
    ap (λ s. parsepipe (parseline n) s >>= backs) (same t)
    ∙ ap (λ r. r >>= backs)
        (piped n (suc (length (write 1 cmd t))) t end missing (omega arith) low1)

Backed-Lined : (cmd : Cmd) → ((t : List ℕ) → write 3 cmd t ≡ write 2 cmd t) → Backed cmd → Lined cmd
Backed-Lined cmd same backed zero t end low = absurd (omega (arith, low))
Backed-Lined cmd same backed (suc n) t end low =
    let low1 : length (write 2 cmd t) < suc n = subst (λ s. length s < suc n) (same t) low in
    ap (parseline (suc n)) (same t)
    ∙ parseline-round n (write 2 cmd t)
    ∙ ap (λ r. r >>= list_round n)
        (backed n t (closes-ends t end) (closes-other t b'|' (ground arith) end)
          (omega (arith, low1)))
    ∙ ap (λ r. r >>= list_round n) (backs-stop cmd t end)
    ∙ list_round-stop n cmd t end

Lined-Element :
    (cmd : Cmd)
    → IsCmd cmd
    → ((t : List ℕ) → write 0 cmd t ≡ b'(' ∷ 32 ∷ write 3 cmd (b')' ∷ 32 ∷ t))
    → ((r : Outcome (Cmd × List ℕ)) → (r >>= more cmd) ≡ r)
    → Lined cmd
    → Element cmd
Lined-Element cmd h same alone lined n t next low =
    let inner = write 3 cmd (b')' ∷ 32 ∷ t) in
    let low1 : suc (suc (length inner)) ≤ n = subst (λ s. length s ≤ n) (same t) low in
    ap (parseexec (parseline n)) (same t)
    ∙ parseexec-parens (parseline n) cmd t h next
        (lined n (b')' ∷ 32 ∷ t) refl (omega (arith, low1)))
    ∙ sym (alone (parseredirs cmd t))

pipe-Piped : (left right : Cmd) → IsCmd right → Element left → Piped right → Piped (pipe left right)
unfolding peek gettoken token_at
pipe-Piped left right h element piped n zero t end missing enough low =
    absurd (omega (arith, enough))
pipe-Piped left right h element piped n (suc fuel) t end missing enough low =
    let u = b'|' ∷ 32 ∷ write 1 right t in
    let behind = write-length 0 left u in
    pipe_from-round n fuel (write 0 left u)
    ∙ ap (λ r. r >>= pipe_round n fuel) (Element-read left n u element refl low)
    ∙ ap (λ s. pipe_from (parseline n) fuel s >>= λ (r, v). done (pipe left r, v))
        (write-skip 1 right t h (ends-IsNext t end))
    ∙ ap (λ x. x >>= λ (r, v). done (pipe left r, v))
        (piped n fuel t end missing (omega (arith, behind, enough)) (omega (arith, behind, low)))

back-Backed : (cmd : Cmd) → Backed cmd → Backed (back cmd)
unfolding back_from peek gettoken token_at
back-Backed cmd backed n t end missing low =
    let u = b'&' ∷ 32 ∷ t in
    backed n u refl refl low
    ∙ ap (back_from (suc (suc (length t))) (back cmd)) (ends-IsNext t end).0
    ∙ back_from-fuel (suc (suc (length t))) (suc (length t)) (back cmd) t (omega arith)
        (omega arith)

list-Lined : (left right : Cmd) → IsCmd right → Backed left → Lined right → Lined (list left right)
unfolding back_from peek gettoken token_at
list-Lined left right h backed lined zero t end low = absurd (omega (arith, low))
list-Lined left right h backed lined (suc n) t end low =
    let u = b';' ∷ 32 ∷ write 3 right t in
    let behind = write-length 2 left u in
    parseline-round n (write 2 left u)
    ∙ ap (λ r. r >>= list_round n) (backed n u refl refl (omega (arith, low)))
    ∙ ap (λ s. parseline n s >>= λ (r, v). done (list left r, v))
        (write-skip 3 right t h (ends-IsNext t (closes-ends t end)))
    ∙ ap (λ x. x >>= λ (r, v). done (list left r, v)) (lined n t end (omega (arith, behind, low)))

-- A command that is written the same way everywhere.
Element-Reads :
    (cmd : Cmd)
    → ((t : List ℕ) → write 1 cmd t ≡ write 0 cmd t)
    → ((t : List ℕ) → write 2 cmd t ≡ write 1 cmd t)
    → ((t : List ℕ) → write 3 cmd t ≡ write 2 cmd t)
    → Element cmd
    → Reads cmd
Element-Reads cmd same1 same2 same3 element =
    let piped = Element-Piped cmd same1 element in
    let backed = Piped-Backed cmd same2 piped in
    record {
      element = element;
      piped = piped;
      backed = backed;
      lined = Backed-Lined cmd same3 backed;
    }

IsCmd-Reads : (cmd : Cmd) → IsCmd cmd → Reads cmd
IsCmd-Reads (exec argv) h =
    Element-Reads (exec argv) (λ t. refl) (λ t. refl) (λ t. refl) (exec-Element argv h)
IsCmd-Reads (redir cmd file mode fd) h =
    Element-Reads (redir cmd file mode fd) (λ t. refl) (λ t. refl) (λ t. refl)
      (redir-Element cmd file mode fd h (IsCmd-Reads cmd h.0).element)
IsCmd-Reads (pipe left right) h =
    let cmd = pipe left right in
    let piped : Piped cmd =
      pipe-Piped left right h.1 (IsCmd-Reads left h.0).element (IsCmd-Reads right h.1).piped in
    let backed = Piped-Backed cmd (λ t. refl) piped in
    let lined = Backed-Lined cmd (λ t. refl) backed in
    record {
      element = Lined-Element cmd h (λ t. refl) bind-done lined;
      piped = piped;
      backed = backed;
      lined = lined;
    }
IsCmd-Reads (back inner) h =
    let cmd = back inner in
    let backed : Backed cmd = back-Backed inner (IsCmd-Reads inner h).backed in
    let lined = Backed-Lined cmd (λ t. refl) backed in
    let element = Lined-Element cmd h (λ t. refl) bind-done lined in
    record {
      element = element;
      piped = Element-Piped cmd (λ t. refl) element;
      backed = backed;
      lined = lined;
    }
IsCmd-Reads (list left right) h =
    let cmd = list left right in
    let lined : Lined cmd =
      list-Lined left right h.1 (IsCmd-Reads left h.0).backed (IsCmd-Reads right h.1).lined in
    let element = Lined-Element cmd h (λ t. refl) bind-done lined in
    let piped = Element-Piped cmd (λ t. refl) element in
    record {
      element = element;
      piped = piped;
      backed = Piped-Backed cmd (λ t. refl) piped;
      lined = lined;
    }

-- A command of words, at most nine in a row, with redirections of the three kinds, is what `parsecmd`
-- makes of the text that it is written as, with parentheses where the grammar wants them.
pub parsecmd-write : (cmd : Cmd) → IsCmd cmd → parsecmd (write 3 cmd []) ≡ done cmd
unfolding parsecmd peek
parsecmd-write cmd h =
    let s = write 3 cmd [] in
    ap (λ r. r >>= λ (c, t). let (found, t1) = peek t [] in finish c t1)
      ((IsCmd-Reads cmd h).lined (suc (length s)) [] refl (omega arith))
