-- ===== src/Tests/ProcRuns.antt =====
-- A table of three processes: init, a parent and its child.
use gem_os_extension.Base.{
  ℕ, suc, ◌≡◌, ◌<◌, ◌%◌, ◌^◌, ◌+◌, refl, false, Option, none, some, [], ◌∷◌, arith, ◌==◌,
  if◌then◌else◌, pos, update,
}
use gem_os_extension.Proc.{
  Proc, Table, ProcState, unused, sleeping, runnable, running, zombie, mlfq_levels, has_parent,
  find_slot, claim, claim_slot, exit_process, allocpid,
}
use gem_os_extension.Proc.Family.{exit_process-family}
use gem_os_extension.Proc.Kill.{IsTable}
use gem_os_extension.Mlfq.{
  Sched, boost_interval, pick_at, pick_level, pick, start_slice, schedule, yield_slice, clockintr,
}
use gem_os_extension.Mlfq.Pick.{Picked, pick-some}
use gem_os_extension.Mlfq.Rotation.{schedule-again}
use gem_os_extension.Mlfq.Slice.{tick, call, boost, run_slice, clockintr-run_slice, yield-slice}
use gem_os_extension.Mlfq.Clock.{LevelsOk, Boosted, boost_within_interval}

abbrev process : ProcState → ℕ → ℕ → Option ℕ → Proc
process state pid chan parent = record {
  state = state;
  chan = chan;
  killed = false;
  xstate = pos 0;
  pid = pid;
  parent = parent;
  sz = 0;
  pagetable = 0;
  trapframe = 0;
  syscall_count = 0;
  level = 0;
  current_ticks = 0;
  ticks = λ i. 0;
  times_scheduled = 0;
  slice_start_syscalls = 0;
  time_slice_expired = false;
  page_faults = 0;
  pages_evicted = 0;
  pages_swapped_in = 0;
  pages_swapped_out = 0;
  resident_pages = pos 0;
}

abbrev addresses : ℕ → ℕ
addresses i = i + 100

-- Init sleeps at slot 0; the parent at slot 1 waits for its child at slot 2.
abbrev pub family : Table
family i =
    if i == 0
    then process sleeping 1 100 none
    else if i == 1
    then process sleeping 2 101 (some 0)
    else if i == 2
    then process running 3 0 (some 1)
    else process unused 0 0 none

-- Two runnable processes at the highest level.
abbrev rivals : Sched
rivals = record {
  procs = λ i.
      if i == 1
      then process runnable 2 0 (some 0)
      else if i == 3
      then process runnable 4 0 (some 0)
      else process unused 0 0 none;
  mlfq_head = λ l. 0;
  ticks = 0;
}

abbrev idle : Sched
idle = record rivals { procs = λ i. process unused 0 0 none }

exit_process-family_example :
    let t' = exit_process addresses 0 2 (pos 7) family in
    ((t' 2).state ≡ zombie)
    × ((t' 2).xstate ≡ pos 7)
    × ((t' 1).parent ≡ (if has_parent (family 1) 2 then some 0 else (family 1).parent))
    × (has_parent (t' 1) 2 ≡ false)
exit_process-family_example =
    exit_process-family addresses 0 2 1 (pos 7) family (ground arith) (omega arith)

family-IsTable : IsTable family
family-IsTable = record { unused_pid = λ i e. ground arith; pid_unused = λ i e. ground arith }

family_claimed : claim_slot family 4 ≡ some (3, update family 3 (claim 4 (family 3)), 5)
unfolding claim_slot find_slot allocpid
family_claimed = refl

rivals-pick : pick rivals ≡ some (0, 1)
unfolding pick pick_level pick_at
rivals-pick = refl

pick-some_example : Picked rivals 0 mlfq_levels 0 1
pick-some_example = pick-some rivals 0 1 rivals-pick

idle-pick : pick idle ≡ none
unfolding pick pick_level pick_at
idle-pick = refl

rivals-schedule : schedule rivals ≡ (some 1, (schedule rivals).1)
unfolding schedule pick pick_level pick_at
rivals-schedule = refl

-- After its slice the process at slot 1 is chosen again; the one at slot 3 still waits.
schedule-again_example :
    (schedule (record rivals { mlfq_head = (schedule rivals).1.mlfq_head })).0 ≡ some 1
schedule-again_example =
    schedule-again rivals (schedule rivals).1
      (record rivals { mlfq_head = (schedule rivals).1.mlfq_head }) 1 rivals-schedule (λ l. refl)
      refl refl (λ j b e. omega arith)

yield-slice_example :
    let q =
      yield_slice
        (run_slice (tick ∷ boost ∷ tick ∷ tick ∷ call ∷ []) (start_slice (rivals.procs 1))) in
    (q.state ≡ runnable) × (q.level ≡ 1)
yield-slice_example =
    yield-slice (tick ∷ boost ∷ tick ∷ tick ∷ call ∷ []) (rivals.procs 1) (omega arith)

-- The rivals at the interrupt before a boost, with the first of them on a processor.
abbrev before_boost : Sched
before_boost = record rivals {
  procs = update rivals.procs 1 (start_slice (rivals.procs 1));
  ticks = 127;
}

clockintr-run_slice_example :
    (clockintr 9 0 (some 1) before_boost).procs 1
    ≡ run_slice (tick ∷ boost ∷ []) (before_boost.procs 1)
unfolding start_slice
clockintr-run_slice_example = clockintr-run_slice 9 0 1 (some 1) before_boost (omega arith) refl

family_levels : LevelsOk family
family_levels i = ground arith

-- The rivals at each interrupt, on a clock that is about to wrap.
abbrev later : ℕ → Sched
later k = record rivals { ticks = (k + 4294967290) % 2 ^ 32 }

later_ticks : (k : ℕ) → (later (suc k)).ticks ≡ (clockintr 9 0 none (later k)).ticks
unfolding clockintr
later_ticks k = ground arith

boost_within_interval_example :
    (k : ℕ) × (k < boost_interval) × Boosted (clockintr 9 0 none (later k)).procs
boost_within_interval_example = boost_within_interval 9 later (λ k. none) (omega arith) later_ticks
