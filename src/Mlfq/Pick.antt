-- ===== src/Mlfq/Pick.antt =====
-- kernel/proc.c: what the scheduler chooses.
use gem_os_extension.Base.{
  ℕ, zero, suc, ◌+◌, ◌-◌, ◌%◌, ◌<◌, ◌≤◌, ◌≡◌, ◌≢◌, sym, ap, ◌∙◌, subst, inl, inr, true, false,
  Bool-cases, Option-cases, none, some, arith, ◌==◌,
}
use gem_os_extension.Proc.{Table, nproc, mlfq_levels, runnable}
use gem_os_extension.Mlfq.{Sched, is_ready, pick_at, pick_level, pick}

==_eq : (a b : ℕ) → (a == b) ≡ true → a ≡ b
==_eq a b h = ground arith

-- The slot found is the first of the level that is ready, in the order of the round.
pub record FirstReady (t : Table) (level start n i idx : ℕ) : Type 0 where
  pub round : ℕ
  pub from : i ≤ round
  pub below : round < i + n
  pub place : idx ≡ (start + round) % nproc
  pub ready : is_ready t level idx ≡ true
  pub earlier : (j : ℕ) → i ≤ j → j < round → is_ready t level ((start + j) % nproc) ≡ false

pub pick_at-some :
    (t : Table) (level start n i idx : ℕ)
    → pick_at t level start n i ≡ some idx
    → FirstReady t level start n i idx
unfolding pick_at
pick_at-some t level start zero i idx e = absurd (ground arith)
pick_at-some t level start (suc n) i idx e =
    elim (Bool-cases (is_ready t level ((start + i) % nproc))) [
      | inl hit ↦
          let same : (start + i) % nproc ≡ idx = ground arith in
          record {
            round = i;
            from = omega arith;
            below = omega arith;
            place = sym same;
            ready = subst (λ z. is_ready t level z ≡ true) same hit;
            earlier = λ j a b. absurd (omega arith);
          }
      | inr miss ↦
          let ih = pick_at-some t level start n (i + 1) idx (ground arith) in
          record {
            round = ih.round;
            from = omega (arith, ih.from);
            below = omega (arith, ih.below);
            place = ih.place;
            ready = ih.ready;
            earlier = λ j a b. elim (Bool-cases (j == i)) [
              | inl same ↦ rw (==_eq j i same) miss
              | inr other ↦ ih.earlier j (ground arith) b
            ];
          }
    ]

pub pick_at-none :
    (t : Table) (level start n i : ℕ)
    → pick_at t level start n i ≡ none
    → (j : ℕ) → i ≤ j
    → j < i + n
    → is_ready t level ((start + j) % nproc) ≡ false
unfolding pick_at
pick_at-none t level start zero i e j a b = absurd (omega arith)
pick_at-none t level start (suc n) i e j a b =
    elim (Bool-cases (is_ready t level ((start + i) % nproc))) [
      | inl hit ↦ absurd (ground arith)
      | inr miss ↦ elim (Bool-cases (j == i)) [
        | inl same ↦ rw (==_eq j i same) miss
        | inr other ↦
            pick_at-none t level start n (i + 1) (ground arith) j (ground arith) (omega arith)
      ]
    ]

-- A round of `nproc` steps comes by every slot, wherever it starts.
comes_by : (start idx : ℕ) → idx < nproc → (start + (idx + 64 - start % 64) % 64) % nproc ≡ idx
comes_by start idx h = omega arith

pub none_ready :
    (t : Table) (level start idx : ℕ)
    → idx < nproc
    → pick_at t level start nproc 0 ≡ none
    → is_ready t level idx ≡ false
none_ready t level start idx h e = rw (comes_by start idx h) at (
    pick_at-none t level start nproc 0 e ((idx + 64 - start % 64) % 64) (omega arith) (omega arith))

-- What a round that starts at the level `from` returns.
pub record Picked (s : Sched) (from n level idx : ℕ) : Type 0 where
  pub above : from ≤ level
  pub below : level < from + n
  pub first : FirstReady s.procs level (s.mlfq_head level) nproc 0 idx
  pub higher : (l j : ℕ) → from ≤ l → l < level → j < nproc → is_ready s.procs l j ≡ false

pick_level-some :
    (s : Sched) (n from level idx : ℕ)
    → pick_level s n from ≡ some (level, idx)
    → Picked s from n level idx
unfolding pick_level
pick_level-some s zero from level idx e = absurd (ground arith)
pick_level-some s (suc n) from level idx e =
    elim (Option-cases (pick_at s.procs from (s.mlfq_head from) nproc 0)) [
      | inl empty ↦
          let ih = pick_level-some s n (from + 1) level idx (ground (arith, empty)) in
          record {
            above = omega (arith, ih.above);
            below = omega (arith, ih.below);
            first = ih.first;
            higher = λ l j a b c. elim (Bool-cases (l == from)) [
              | inl same ↦
                  rw (==_eq l from same) (none_ready s.procs from (s.mlfq_head from) j c empty)
              | inr other ↦ ih.higher l j (ground arith) b c
            ];
          }
      | inr (i, found) ↦
          let same : (from ≡ level) × (i ≡ idx) = ground (arith, found) in
          record {
            above = omega (arith, same.0);
            below = omega (arith, same.0);
            first =
                subst (λ l. FirstReady s.procs l (s.mlfq_head l) nproc 0 idx) same.0
                  (pick_at-some s.procs from (s.mlfq_head from) nproc 0 idx
                    (found ∙ ap some same.1));
            higher = λ l j a b c. absurd (omega (arith, same.0));
          }
    ]

-- A choice of the scheduler is a runnable process of the level that it names; no process of a
-- higher level is runnable; and it is the first such of its level, from the level's head on.
pub pick-some :
    (s : Sched) (level idx : ℕ) → pick s ≡ some (level, idx) → Picked s 0 mlfq_levels level idx
unfolding pick
pick-some s level idx e = pick_level-some s mlfq_levels 0 level idx e

pick_level-none :
    (s : Sched) (n from l idx : ℕ)
    → pick_level s n from ≡ none
    → from ≤ l
    → l < from + n
    → idx < nproc
    → is_ready s.procs l idx ≡ false
unfolding pick_level
pick_level-none s zero from l idx e a b h = absurd (omega arith)
pick_level-none s (suc n) from l idx e a b h =
    elim (Option-cases (pick_at s.procs from (s.mlfq_head from) nproc 0)) [
      | inl empty ↦ elim (Bool-cases (l == from)) [
        | inl same ↦ rw (==_eq l from same) (none_ready s.procs from (s.mlfq_head from) idx h empty)
        | inr other ↦
            pick_level-none s n (from + 1) l idx (ground (arith, empty)) (ground arith)
              (omega arith) h
      ]
      | inr (i, found) ↦ absurd (ground (arith, found))
    ]

-- Where the scheduler finds nothing to run, no process of the table with a level is runnable.
pub pick-none :
    (s : Sched) (idx : ℕ)
    → pick s ≡ none
    → idx < nproc
    → (s.procs idx).level < mlfq_levels
    → (s.procs idx).state ≢ runnable
unfolding pick
pick-none s idx e h l =
    ground (
      arith,
      pick_level-none s mlfq_levels 0 (s.procs idx).level idx e (omega arith) (omega arith) h,
    )
