-- ===== src/Log/Space.antt =====
-- kernel/log.c: the space that `begin_op` reserves is enough for `log_write`.
use gem_os_extension.Base.{
  ℕ, zero, suc, ◌+◌, ◌-◌, ◌*◌, ◌<◌, ◌≤◌, ◌≡◌, ◌≢◌, refl, sym, ap, ◌∙◌, subst, inl, inr, ◌⊎◌, Bool,
  true, false, Bool-cases, some, List, [], ◌∷◌, ◌++◌, length, length-append, ◌==◌, List-cases, All,
  All-append, All-left, All-right, arith, ltb, done, panic,
}
use gem_os_extension.Log.{
  Log, LogHeader, HeaderFormat, maxopblocks, logblocks, bwrite, install_from, install_trans,
  write_from, write_log, write_head, commit, begin_op, end_locked, end_commit, log_write,
}

-- The writes that each outstanding operation may still make.
abbrev pub sum : List ℕ → ℕ
sum [] = 0
sum (x ∷ xs) = x + sum xs

-- Where the log is: no commit, one that is to be made, and one that is made and not yet noted.
pub data Phase : Type 0 where
  idle to_commit committed : Phase

abbrev pub after_end : Bool → Phase
after_end true = to_commit
after_end false = idle

sum-append : (xs ys : List ℕ) → sum (xs ++ ys) ≡ sum xs + sum ys
sum-append [] ys = omega arith
sum-append (x ∷ xs) ys = omega (arith, sum-append xs ys)

sum-le : (xs : List ℕ) → All (λ k. k ≤ 10) xs → sum xs ≤ length xs * 10
sum-le [] h = omega arith
sum-le (x ∷ xs) h = omega (arith, h.0, sum-le xs h.1)

All-replace :
    (xs ys : List ℕ) (k j : ℕ)
    → j ≤ 10
    → All (λ k. k ≤ 10) (xs ++ k ∷ ys)
    → All (λ k. k ≤ 10) (xs ++ j ∷ ys) × (k ≤ 10) × All (λ k. k ≤ 10) (xs ++ ys)
All-replace xs ys k j b h =
    let left = All-left (λ k. k ≤ 10) xs (k ∷ ys) h in
    let right = All-right (λ k. k ≤ 10) xs (k ∷ ys) h in
    (
      All-append (λ k. k ≤ 10) xs (j ∷ ys) left (b, right.1),
      right.0,
      All-append (λ k. k ≤ 10) xs ys left right.1,
    )

middle :
    (xs ys left : List ℕ) (k : ℕ)
    → left ≡ xs ++ k ∷ ys
    → (length left ≡ length xs + length ys + 1) × (sum left ≡ sum xs + sum ys + k)
middle xs ys left k e = (
  omega (arith, ap length e, length-append xs (k ∷ ys)),
  omega (arith, ap sum e, sum-append xs (k ∷ ys)),
)

module _ {B : Type 0} where
  install_from-outstanding :
      (m tail : ℕ) (l : Log B) → (install_from m tail l).outstanding ≡ l.outstanding
  unfolding install_from bwrite
  install_from-outstanding zero tail l = refl
  install_from-outstanding (suc m) tail l =
      install_from-outstanding m (tail + 1)
        (bwrite (l.lh.block tail) (l.cache (l.start + tail + 1)) l)

  write_from-outstanding :
      (m tail : ℕ) (l : Log B) → (write_from m tail l).outstanding ≡ l.outstanding
  unfolding write_from bwrite
  write_from-outstanding zero tail l = refl
  write_from-outstanding (suc m) tail l =
      write_from-outstanding m (tail + 1)
        (bwrite (l.start + tail + 1) (l.cache (l.lh.block tail)) l)

  install_from-committing :
      (m tail : ℕ) (l : Log B) → (install_from m tail l).committing ≡ l.committing
  unfolding install_from bwrite
  install_from-committing zero tail l = refl
  install_from-committing (suc m) tail l =
      install_from-committing m (tail + 1)
        (bwrite (l.lh.block tail) (l.cache (l.start + tail + 1)) l)

  write_from-committing : (m tail : ℕ) (l : Log B) → (write_from m tail l).committing ≡ l.committing
  unfolding write_from bwrite
  write_from-committing zero tail l = refl
  write_from-committing (suc m) tail l =
      write_from-committing m (tail + 1) (bwrite (l.start + tail + 1) (l.cache (l.lh.block tail)) l)

  begin_op-some :
      (l l' : Log B)
      → begin_op l ≡ some l'
      → (l'.outstanding ≡ l.outstanding + 1)
        × (l'.lh ≡ l.lh)
        × (l'.committing ≡ false)
        × (l.committing ≡ false)
        × (l.lh.n + (l.outstanding + 1) * maxopblocks ≤ logblocks)
  unfolding begin_op
  begin_op-some l l' e = ground arith

  log_write-done :
      (b : ℕ) (v : B) (l l' : Log B)
      → log_write b v l ≡ done l'
      → (l'.outstanding ≡ l.outstanding) × (l'.lh.n ≤ l.lh.n + 1) × (l'.committing ≡ l.committing)
  unfolding log_write
  log_write-done b v l l' e = ground arith

  end_locked-done :
      (l l' : Log B) (do_commit : Bool)
      → l.committing ≡ false
      → end_locked l ≡ done (l', do_commit)
      → (l'.outstanding ≡ l.outstanding - 1)
        × (l'.lh ≡ l.lh)
        × (l'.committing ≡ do_commit)
        × ((do_commit ≡ false) ⊎ (l'.outstanding ≡ 0))
  unfolding end_locked
  end_locked-done l l' do_commit still e = ground arith

module _ {B : Type 0} (f : HeaderFormat B) where
  commit-shrinks :
      (l : Log B)
      → ((commit f l).outstanding ≡ l.outstanding)
        × ((commit f l).lh.n ≤ l.lh.n)
        × ((commit f l).committing ≡ l.committing)
  unfolding commit write_head bwrite install_trans write_log
  commit-shrinks l = elim (Bool-cases (ltb 0 l.lh.n)) [
    | inl more ↦
        let l1 = write_log l in
        let l2 = write_head f l1 in
        rw more (
          install_from-outstanding l2.lh.n 0 l2 ∙ write_from-outstanding l.lh.n 0 l,
          omega arith,
          install_from-committing l2.lh.n 0 l2 ∙ write_from-committing l.lh.n 0 l,
        )
    | inr nothing ↦ rw nothing (refl, omega arith, refl)
  ]

  -- A run of file system operations, each of which makes at most MAXOPBLOCKS writes. A step is one
  -- call by the operation at any place in the list, or a part of an `end_op`: what it does under
  -- the lock, its commit, and what it does under the lock again. Other calls may come between.
  pub data Run (l0 : Log B) : Log B → List ℕ → Phase → Type 0 where
    nothing : Run l0 l0 [] idle
    begins :
        (l l' : Log B) (left : List ℕ) (phase : Phase)
        → Run l0 l left phase
        → begin_op l ≡ some l'
        → Run l0 l' (maxopblocks ∷ left) phase
    writes :
        (l l' : Log B) (xs ys left left' : List ℕ) (phase : Phase) (k b : ℕ) (v : B)
        → Run l0 l left phase
        → left ≡ xs ++ suc k ∷ ys
        → left' ≡ xs ++ k ∷ ys
        → log_write b v l ≡ done l'
        → Run l0 l' left' phase
    ends :
        (l l' : Log B) (xs ys left left' : List ℕ) (phase : Phase) (k : ℕ) (do_commit : Bool)
        → Run l0 l left phase
        → left ≡ xs ++ k ∷ ys
        → left' ≡ xs ++ ys
        → end_locked l ≡ done (l', do_commit)
        → Run l0 l' left' (after_end do_commit)
    commits :
        (l : Log B) (left : List ℕ) → Run l0 l left to_commit → Run l0 (commit f l) left committed
    finishes :
        (l : Log B) (left : List ℕ) → Run l0 l left committed → Run l0 (end_commit l) left idle

  -- What holds after each step: while there is a commit, no operation is outstanding.
  record IsRun (l : Log B) (left : List ℕ) (phase : Phase) : Type 0 where
    operations : length left ≡ l.outstanding
    space : l.lh.n + sum left ≤ logblocks
    budget : All (λ k. k ≤ 10) left
    quiet : ((phase ≡ idle) × (l.committing ≡ false)) ⊎ ((left ≡ []) × (l.committing ≡ true))

  -- An outstanding operation: no commit is under way.
  IsRun-idle :
      (l : Log B) (xs ys left : List ℕ) (k : ℕ) (phase : Phase)
      → IsRun l left phase
      → left ≡ xs ++ k ∷ ys
      → (phase ≡ idle) × (l.committing ≡ false)
  IsRun-idle l xs ys left k phase h e = elim h.quiet [
    | inl still ↦ still
    | inr (none_left, committing) ↦
        absurd (omega (arith, (middle xs ys left k e).0, ap length none_left))
  ]

  begins-IsRun :
      (l1 l : Log B) (left : List ℕ) (phase : Phase)
      → IsRun l1 left phase
      → begin_op l1 ≡ some l
      → IsRun l (maxopblocks ∷ left) phase
  begins-IsRun l1 l left phase h e =
      let (out, lh, still, was_still, room) = begin_op-some l1 l e in
      let same : l.lh.n ≡ l1.lh.n = ap (λ (x : LogHeader). x.n) lh in
      record {
        operations = omega (arith, h.operations, out);
        space = omega (arith, room, same, sum-le left h.budget, h.operations);
        budget = (omega arith, h.budget);
        quiet = elim h.quiet [
          | inl (at, _) ↦ inl (at, still)
          | inr (_, committing) ↦ absurd (ground (arith, committing, was_still))
        ];
      }

  writes-IsRun :
      (l1 l : Log B) (xs ys left1 left : List ℕ) (phase : Phase) (k b : ℕ) (v : B)
      → IsRun l1 left1 phase
      → left1 ≡ xs ++ suc k ∷ ys
      → left ≡ xs ++ k ∷ ys
      → log_write b v l1 ≡ done l
      → IsRun l left phase
  writes-IsRun l1 l xs ys left1 left phase k b v h e e' w =
      let (out, grows, same) = log_write-done b v l1 l w in
      let budget : All (λ k. k ≤ 10) (xs ++ suc k ∷ ys) = subst (All (λ k. k ≤ 10)) e h.budget in
      let small = (All-replace xs ys (suc k) 0 (omega arith) budget).1 in
      let old = middle xs ys left1 (suc k) e in
      let new = middle xs ys left k e' in
      let (at, still) = IsRun-idle l1 xs ys left1 (suc k) phase h e in
      record {
        operations = omega (arith, h.operations, out, old, new);
        space = omega (arith, h.space, grows, old, new);
        budget =
            subst (All (λ k. k ≤ 10)) (sym e')
              (All-replace xs ys (suc k) k (omega (arith, small)) budget).0;
        quiet = inl (at, same ∙ still);
      }

  ends-IsRun :
      (l1 l : Log B) (xs ys left1 left : List ℕ) (phase : Phase) (k : ℕ) (do_commit : Bool)
      → IsRun l1 left1 phase
      → left1 ≡ xs ++ k ∷ ys
      → left ≡ xs ++ ys
      → end_locked l1 ≡ done (l, do_commit)
      → IsRun l left (after_end do_commit)
  ends-IsRun l1 l xs ys left1 left phase k do_commit h e e' w =
      let (at, still) = IsRun-idle l1 xs ys left1 k phase h e in
      let (out, lh, committing, last) = end_locked-done l1 l do_commit still w in
      let same : l.lh.n ≡ l1.lh.n = ap (λ (x : LogHeader). x.n) lh in
      let budget : All (λ k. k ≤ 10) (xs ++ k ∷ ys) = subst (All (λ k. k ≤ 10)) e h.budget in
      let old = middle xs ys left1 k e in
      let count = ap length e' ∙ length-append xs ys in
      let total = ap sum e' ∙ sum-append xs ys in
      let remaining : length left ≡ l.outstanding = omega (arith, h.operations, out, old, count) in
      record {
        operations = remaining;
        space = omega (arith, h.space, same, old, total);
        budget = subst (All (λ k. k ≤ 10)) (sym e') (All-replace xs ys k 0 (omega arith) budget).2;
        quiet = elim (Bool-cases do_commit) [
          | inr goes_on ↦ inl (ap after_end goes_on, committing ∙ goes_on)
          | inl commits_now ↦ elim last [
            | inl goes_on ↦ absurd (ground (arith, commits_now, goes_on))
            | inr none_left ↦ elim (List-cases left) [
              | inl empty ↦ inr (empty, committing ∙ commits_now)
              | inr (x, rest, more) ↦ absurd (omega (arith, ap length more, remaining, none_left))
            ]
          ]
        ];
      }

  Run-IsRun :
      (l0 l : Log B) (left : List ℕ) (phase : Phase)
      → l0.outstanding ≡ 0
      → l0.lh.n ≤ logblocks
      → l0.committing ≡ false
      → Run l0 l left phase
      → IsRun l left phase
  Run-IsRun l0 l left phase o n c nothing = record {
    operations = sym o;
    space = omega (arith, n);
    budget = tt;
    quiet = inl (refl, c);
  }
  Run-IsRun l0 l left phase o n c (begins l1 l' left1 phase' r e) =
      begins-IsRun l1 l left1 phase (Run-IsRun l0 l1 left1 phase o n c r) e
  Run-IsRun l0 l left phase o n c (writes l1 l' xs ys left1 left' phase' k b v r e e' w) =
      writes-IsRun l1 l xs ys left1 left phase k b v (Run-IsRun l0 l1 left1 phase o n c r) e e' w
  Run-IsRun l0 l left phase o n c (ends l1 l' xs ys left1 left' phase1 k do_commit r e e' w) =
      ends-IsRun l1 l xs ys left1 left phase1 k do_commit (Run-IsRun l0 l1 left1 phase1 o n c r) e
        e' w
  Run-IsRun l0 l left phase o n c (commits l1 left1 r) =
      let h = Run-IsRun l0 l1 left to_commit o n c r in
      let (out, shrinks, same) = commit-shrinks l1 in
      record {
        operations = h.operations ∙ sym out;
        space = omega (arith, h.space, shrinks);
        budget = h.budget;
        quiet = elim h.quiet [
          | inl (at, _) ↦ absurd (ground (arith, at))
          | inr (empty, committing) ↦ inr (empty, same ∙ committing)
        ];
      }
  Run-IsRun l0 l left phase o n c (finishes l1 left1 r) =
      let h = Run-IsRun l0 l1 left committed o n c r in
      record {
        operations = h.operations;
        space = h.space;
        budget = h.budget;
        quiet = inl (refl, refl);
      }

  -- The log has space for every operation that `begin_op` lets in, and none runs beside a commit. In
  -- a run that begins with no operation outstanding, at most 30 blocks in the log and no commit
  -- under way, where each operation makes at most MAXOPBLOCKS writes and other calls may come
  -- between the parts of an `end_op`: while some operation has not ended, the number outstanding is
  -- that of the operations begun and not ended, no commit is to be made or noted, an end of an
  -- operation does not panic, and if the operation has a write left, the log has room for one block
  -- more and the write does not panic.
  pub Run-safe :
      (l0 l : Log B) (xs ys : List ℕ) (phase : Phase) (k b : ℕ) (v : B)
      → l0.outstanding ≡ 0
      → l0.lh.n ≤ logblocks
      → l0.committing ≡ false
      → Run l0 l (xs ++ k ∷ ys) phase
      → (l.outstanding ≡ length (xs ++ k ∷ ys))
        × (phase ≡ idle)
        × (l.committing ≡ false)
        × (end_locked l ≢ panic)
        × ((k ≡ 0) ⊎ ((l.lh.n < logblocks) × (log_write b v l ≢ panic)))
  unfolding log_write end_locked
  Run-safe l0 l xs ys phase k b v o n c r =
      let h = Run-IsRun l0 l (xs ++ k ∷ ys) phase o n c r in
      let (at, still) = IsRun-idle l xs ys (xs ++ k ∷ ys) k phase h refl in
      let m = middle xs ys (xs ++ k ∷ ys) k refl in
      let some_out : 1 ≤ l.outstanding = omega (arith, m, h.operations) in
      (
        sym h.operations,
        at,
        still,
        (λ p. ground (arith, still, p)),
        elim (Bool-cases (k == 0)) [
          | inl over ↦ inl (ground (arith, over))
          | inr more ↦
              let left : k ≢ 0 = ground (arith, more) in
              let some_room : l.lh.n < 30 = omega (arith, m, h.space, left) in
              inr (some_room, λ p. ground (arith, some_out, some_room, p))
        ],
      )
