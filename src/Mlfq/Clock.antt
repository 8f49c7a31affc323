-- ===== src/Mlfq/Clock.antt =====
-- kernel/trap.c and kernel/proc.c: the clock interrupt, the boost, and the range of the levels.
use gem_os_extension.Base.{
  ℕ, zero, suc, ◌+◌, ◌-◌, ◌%◌, ◌^◌, ◌<◌, ◌≡◌, ◌≢◌, inl, inr, true, Option, none, some, Option-cases,
  arith, ◌==◌, update,
}
use gem_os_extension.Proc.{Proc, Table, nproc, mlfq_levels, unused, zombie, wakeup}
use gem_os_extension.Mlfq.{
  Sched, boost_interval, mlfq_boost, schedule, pick, yield_slice, charge_tick, clockintr,
}

-- Every process is on one of the four queues.
abbrev pub LevelsOk : Table → Type 0
LevelsOk t = (i : ℕ) → (t i).level < mlfq_levels

charge_tick-level : (p : Proc) → p.level < mlfq_levels → (charge_tick p).level < mlfq_levels
unfolding charge_tick
charge_tick-level p h = ground arith

wakeup-level : (me : Option ℕ) (chan i : ℕ) (t : Table) → (wakeup me chan t i).level ≡ (t i).level
unfolding wakeup
wakeup-level me chan i t = ground arith

boost-level : (t : Table) (i : ℕ) → (t i).level < mlfq_levels → (mlfq_boost t i).level < mlfq_levels
unfolding mlfq_boost
boost-level t i h = ground arith

-- The clock interrupt keeps every level in range.
pub clockintr-LevelsOk :
    (c cpu : ℕ) (me : Option ℕ) (s : Sched)
    → LevelsOk s.procs
    → LevelsOk (clockintr c cpu me s).procs
unfolding clockintr
clockintr-LevelsOk c cpu none s h i =
    ground (arith, h i, wakeup-level none c i s.procs, boost-level (wakeup none c s.procs) i)
clockintr-LevelsOk c cpu (some j) s h i =
    let charged = update s.procs j (charge_tick (s.procs j)) in
    ground (
      arith,
      h i,
      h j,
      charge_tick-level (s.procs j),
      wakeup-level (some j) c i charged,
      boost-level (wakeup (some j) c charged) i,
    )

-- So do a `yield`
pub yield-LevelsOk : (t : Table) (i : ℕ) → LevelsOk t → LevelsOk (update t i (yield_slice (t i)))
unfolding yield_slice
yield-LevelsOk t i h j = ground (arith, h i, h j)

-- and a round of the scheduler.
pub schedule-LevelsOk : (s : Sched) → LevelsOk s.procs → LevelsOk (schedule s).1.procs
unfolding schedule
schedule-LevelsOk s h i = elim (Option-cases (pick s)) [
  | inl empty ↦ rw (empty, schedule) (h i)
  | inr ((level, idx), found) ↦ rw (found, schedule) (ground (arith, h i, h idx))
]

-- Live processes are at the top.
abbrev pub Boosted : Table → Type 0
Boosted t = (i : ℕ) → i < nproc → (t i).state ≢ unused → (t i).state ≢ zombie → (t i).level ≡ 0

mlfq_boost-Boosted : (t : Table) → Boosted (mlfq_boost t)
unfolding mlfq_boost
mlfq_boost-Boosted t i b u z = ground arith

clockintr-Boosted :
    (c : ℕ) (me : Option ℕ) (s : Sched)
    → (s.ticks + 1) % 2 ^ 32 % boost_interval ≡ 0
    → Boosted (clockintr c 0 me s).procs
unfolding clockintr
clockintr-Boosted c me s e i b =
    let due : ((s.ticks + 1) % 2 ^ 32 % boost_interval == 0) ≡ true = ground (arith, e) in
    rw due (mlfq_boost-Boosted _ i b)

clockintr-ticks :
    (c : ℕ) (me : Option ℕ) (s : Sched) → (clockintr c 0 me s).ticks ≡ (s.ticks + 1) % 2 ^ 32
unfolding clockintr
clockintr-ticks c me s = ground arith

-- The clock counts the interrupts of processor 0 modulo 2^32.
states_ticks :
    (c : ℕ) (states : ℕ → Sched) (running_at : ℕ → Option ℕ)
    → (states 0).ticks < 2 ^ 32
    → ((k : ℕ) → (states (suc k)).ticks ≡ (clockintr c 0 (running_at k) (states k)).ticks)
    → (k : ℕ) → (states k).ticks ≡ ((states 0).ticks + k) % 2 ^ 32
states_ticks c states running_at b step zero = omega arith
states_ticks c states running_at b step (suc k) =
    let ih = states_ticks c states running_at b step k in
    omega (arith, step k, clockintr-ticks c (running_at k) (states k), ih)

-- However the processes run, block and sink between the clock interrupts of processor 0, among any
-- 128 of those in a row there is one that leaves every live process at the highest level. (`states
-- k` is the state at the k-th of them; nothing else moves the clock, which is below 2^32 and wraps
-- there.)
pub boost_within_interval :
    (c : ℕ) (states : ℕ → Sched) (running_at : ℕ → Option ℕ)
    → (states 0).ticks < 2 ^ 32
    → ((k : ℕ) → (states (suc k)).ticks ≡ (clockintr c 0 (running_at k) (states k)).ticks)
    → (k : ℕ) × (k < boost_interval) × Boosted (clockintr c 0 (running_at k) (states k)).procs
boost_within_interval c states running_at b step =
    let start = (states 0).ticks in
    let k : ℕ = 127 - start % 128 in
    let now = states_ticks c states running_at b step k in
    let due : ((states k).ticks + 1) % 2 ^ 32 % boost_interval ≡ 0 = omega (arith, now) in
    (k, omega arith, clockintr-Boosted c (running_at k) (states k) due)
