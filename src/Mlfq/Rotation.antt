-- ===== src/Mlfq/Rotation.antt =====
-- kernel/proc.c: one round of the scheduler, and which process comes next within a level.
use gem_os_extension.Base.{
  ℕ, zero, suc, ◌+◌, ◌%◌, ◌<◌, ◌≤◌, ◌≡◌, refl, ap, true, false, Option-cases, Bool-cases, inl, inr,
  none, some, arith, ◌==◌, update,
}
use gem_os_extension.Proc.{Table, nproc, mlfq_levels, runnable}
use gem_os_extension.Mlfq.{Sched, is_ready, pick_at, pick_level, pick, start_slice, schedule}
use gem_os_extension.Mlfq.Pick.{pick-some}

schedule-some :
    (s : Sched) (level idx : ℕ)
    → pick s ≡ some (level, idx)
    → schedule s ≡ (
      some idx,
      record s {
        procs = update s.procs idx (start_slice (s.procs idx));
        mlfq_head = update s.mlfq_head level idx;
      },
    )
unfolding schedule
schedule-some s level idx e = rw (e, schedule) refl

pick-schedule :
    (s s' : Sched) (idx : ℕ)
    → schedule s ≡ (some idx, s')
    → (level : ℕ) × (pick s ≡ some (level, idx))
      × (s' ≡ record s {
        procs = update s.procs idx (start_slice (s.procs idx));
        mlfq_head = update s.mlfq_head level idx;
      })
unfolding schedule
pick-schedule s s' idx e = elim (Option-cases (pick s)) [
  | inl empty ↦ absurd (ground (arith, empty))
  | inr ((level, i), found) ↦ (level, ground (arith, found), ground (arith, found))
]

pick_at-none_ready :
    (t : Table) (level start n i : ℕ)
    → ((j : ℕ) → j < nproc → is_ready t level j ≡ false)
    → pick_at t level start n i ≡ none
unfolding pick_at
pick_at-none_ready t level start zero i h = refl
pick_at-none_ready t level start (suc n) i h =
    ground (arith, h ((start + i) % nproc), pick_at-none_ready t level start n (i + 1) h)

pick_at-start :
    (t : Table) (level idx n : ℕ)
    → idx < nproc
    → is_ready t level idx ≡ true
    → pick_at t level idx (suc n) 0 ≡ some idx
unfolding pick_at
pick_at-start t level idx n b h =
    let here : (idx + 0) % nproc ≡ idx = omega arith in ground (arith, here)

pick_level-again :
    (s : Sched) (n from level idx : ℕ)
    → from ≤ level
    → level < from + n
    → idx < nproc
    → s.mlfq_head level ≡ idx
    → is_ready s.procs level idx ≡ true
    → ((l j : ℕ) → l < level → j < nproc → is_ready s.procs l j ≡ false)
    → pick_level s n from ≡ some (level, idx)
unfolding pick_level
pick_level-again s zero from level idx a b c e r h = absurd (omega arith)
pick_level-again s (suc n) from level idx a b c e r h = elim (Bool-cases (from == level)) [
  | inl same ↦
      let head : pick_at s.procs level (s.mlfq_head level) nproc 0 ≡ some idx =
        rw e (pick_at-start s.procs level idx 63 c r) in
      ground (arith, head)
  | inr other ↦
      let empty =
        pick_at-none_ready s.procs from (s.mlfq_head from) nproc 0 (λ j. h from j (ground arith)) in
      let ih = pick_level-again s n (from + 1) level idx (ground arith) (omega arith) c e r h in
      ground (arith, empty, ih)
]

not_ready :
    (s : Sched) (k j : ℕ)
    → ((s.procs j).state ≡ runnable → ¬ ((s.procs j).level ≡ k))
    → is_ready s.procs k j ≡ false
not_ready s k j h = elim (Bool-cases (is_ready s.procs k j)) [
  | inl ready ↦ absurd (h (ground arith) (ground arith))
  | inr waiting ↦ waiting
]

-- Round robin it is not: the process that the scheduler has just run is chosen again at every later
-- state with the heads as it left them in which it is runnable at its level and no process of a
-- higher level is, whichever other processes of its level are runnable too.
pub schedule-again :
    (s s' later : Sched) (idx : ℕ)
    → schedule s ≡ (some idx, s')
    → ((l : ℕ) → later.mlfq_head l ≡ s'.mlfq_head l)
    → (later.procs idx).state ≡ runnable
    → (later.procs idx).level ≡ (s.procs idx).level
    → ((j : ℕ)
        → j < nproc
        → (later.procs j).state ≡ runnable
        → (s.procs idx).level ≤ (later.procs j).level)
    → (schedule later).0 ≡ some idx
unfolding pick
schedule-again s s' later idx e heads r l above =
    let (level, found, shape) = pick-schedule s s' idx e in
    let picked = pick-some s level idx found in
    let at : (s.procs idx).level ≡ level = ground (arith, picked.first.ready) in
    let inside : idx < nproc = omega (arith, picked.first.place) in
    let head : later.mlfq_head level ≡ idx = ground (arith, heads level, shape) in
    let again : pick later ≡ some (level, idx) =
      pick_level-again later mlfq_levels 0 level idx (omega arith) (omega (arith, picked.below))
        inside head (ground (arith, at))
        (λ k j lt b. not_ready later k j (λ run same. omega (arith, above j b run, at))) in
    ap (λ r. r.0) (schedule-some later level idx again)
