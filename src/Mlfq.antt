-- ===== src/Mlfq.antt =====
-- kernel/proc.c and kernel/trap.c: the multilevel feedback queue. The scheduler's choice, the end
-- of a time slice, the clock interrupt and the priority boost, over the process table. The switch
-- to the process and back is not a step of the model: what runs between them are other operations.
pub mod Pick
pub mod Rotation
pub mod Slice
pub mod Clock
use gem_os_extension.Base.{
  ℕ, zero, suc, ◌+◌, ◌-◌, ◌%◌, ◌^◌, Bool, true, false, not, ◌&&◌, ◌||◌, Option, none, some, ltb,
  leb, ◌==◌, if◌then◌else◌, ℤ, pos, sub_ℕ, ltb_ℤ, update,
}
use gem_os_extension.Proc.{
  Proc, Table, nproc, mlfq_levels, in_state, unused, runnable, running, zombie, for_each, wakeup,
}

abbrev pub boost_interval : ℕ
boost_interval = 128

-- `mlfq_quantum[]`, at a level below `mlfq_levels`.
abbrev pub mlfq_quantum : ℕ → ℕ
mlfq_quantum zero = 2
mlfq_quantum (suc zero) = 4
mlfq_quantum (suc (suc zero)) = 8
mlfq_quantum (suc (suc (suc l))) = 16

-- The process table, the index at which each level starts its round, and the clock.
pub record Sched : Type 0 where
  pub procs : Table
  pub mlfq_head : ℕ → ℕ
  pub ticks : ℕ

-- One round of `mlfq_boost`.
abbrev pub boost_slot : Proc → Proc
boost_slot p =
    if not (in_state p.state unused) && not (in_state p.state zombie)
    then record p { level = 0; current_ticks = 0; time_slice_expired = false }
    else p

unfoldable pub mlfq_boost : Table → Table
mlfq_boost = for_each λ i p. boost_slot p

-- The test of the scheduler's inner loop.
abbrev pub is_ready : Table → ℕ → ℕ → Bool
is_ready t level idx = in_state (t idx).state runnable && (t idx).level == level

-- The inner loop: `n` rounds from the `i`-th on, the first slot of the level that is ready.
unfoldable pub pick_at : Table → ℕ → ℕ → ℕ → ℕ → Option ℕ
pick_at t level start zero i = none
pick_at t level start (suc n) i =
    let rest = pick_at t level start n (i + 1) in
    let idx = (start + i) % nproc in if is_ready t level idx then some idx else rest

-- The outer loop: `n` levels from `level` on.
unfoldable pub pick_level : Sched → ℕ → ℕ → Option (ℕ × ℕ)
pick_level s zero level = none
pick_level s (suc n) level =
    let rest = pick_level s n (level + 1) in
    elim (pick_at s.procs level (s.mlfq_head level) nproc 0) [
      | some idx ↦ some (level, idx)
      | none ↦ rest
    ]

-- The level and the slot that one round of `scheduler` chooses.
unfoldable pub pick : Sched → Option (ℕ × ℕ)
pick s = pick_level s mlfq_levels 0

-- A new time slice for the process.
unfoldable pub start_slice : Proc → Proc
start_slice p = record p {
  state = running;
  current_ticks = 0;
  time_slice_expired = false;
  slice_start_syscalls = p.syscall_count;
  times_scheduled = p.times_scheduled + 1;
}

-- One round of `scheduler` up to the switch: the slot that it runs, if it finds one.
unfoldable pub schedule : Sched → Option ℕ × Sched
unfolding start_slice
schedule s = elim (pick s) [
  | none ↦ (none, s)
  | some (level, idx) ↦ (
    some idx,
    record s {
      procs = update s.procs idx (start_slice (s.procs idx));
      mlfq_head = update s.mlfq_head level idx;
    },
  )
]

-- `yield` up to the switch.
unfoldable pub yield_slice : Proc → Proc
yield_slice p =
    let delta_syscalls = sub_ℕ p.syscall_count p.slice_start_syscalls in
    let delta_ticks = p.current_ticks in
    let demoted = ltb_ℤ delta_syscalls (pos delta_ticks) && ltb p.level (mlfq_levels - 1) in
    if p.time_slice_expired
    then record p {
      level = if demoted then p.level + 1 else p.level;
      current_ticks = 0;
      time_slice_expired = false;
      state = runnable;
    }
    else record p { state = runnable }

-- The part of `clockintr` that charges a tick to the running process.
unfoldable pub charge_tick : Proc → Proc
charge_tick p =
    let level = if leb mlfq_levels p.level then 0 else p.level in
    if in_state p.state running
    then record p {
      level = level;
      current_ticks = p.current_ticks + 1;
      ticks = update p.ticks level (p.ticks level + 1);
      time_slice_expired = leb (mlfq_quantum level) (p.current_ticks + 1) || p.time_slice_expired;
    }
    else p

-- `clockintr` on the processor `cpuid`, which runs `myproc`; `ticks_chan` is the address of `ticks`.
unfoldable pub clockintr : ℕ → ℕ → Option ℕ → Sched → Sched
unfolding charge_tick
clockintr ticks_chan cpuid myproc s =
    let charged : Table = elim myproc [
      | none ↦ s.procs
      | some i ↦ update s.procs i (charge_tick (s.procs i))
    ] in
    let xticks = (s.ticks + 1) % 2 ^ 32 in
    let woken = wakeup myproc ticks_chan charged in
    if cpuid == 0
    then record s {
      procs = if xticks % boost_interval == 0 then mlfq_boost woken else woken;
      ticks = xticks;
    }
    else record s { procs = charged }
