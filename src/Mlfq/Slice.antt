-- ===== src/Mlfq/Slice.antt =====
-- kernel/proc.c and kernel/trap.c: one time slice, from the switch to a process to its `yield`.
use gem_os_extension.Base.{
  ℕ, zero, suc, ◌+◌, ◌%◌, ◌^◌, ◌<◌, ◌≡◌, ◌&&◌, inl, inr, Bool, true, false, Bool-cases, Option,
  none, some, List, [], ◌∷◌, arith, ltb, leb, ◌==◌, if◌then◌else◌, update, ap, ◌∙◌, refl, sym,
}
use gem_os_extension.Proc.{Proc, Table, nproc, mlfq_levels, running, runnable, wakeup}
use gem_os_extension.Mlfq.{
  Sched, boost_interval, mlfq_boost, mlfq_quantum, start_slice, yield_slice, charge_tick,
  boost_slot, clockintr,
}

-- What happens to a process while it runs: a timer interrupt of its processor charges it a tick, it
-- makes a system call, which `syscall` counts first, or a timer interrupt of processor 0 boosts every
-- process. An interrupt that does both is a tick and then a boost. What `clockintr` wakes is asleep,
-- and so is no process that runs.
pub data Event : Type 0 where
  tick call boost : Event

unfoldable pub count_syscall : Proc → Proc
count_syscall p = record p { syscall_count = p.syscall_count + 1 }

unfoldable pub run_slice : List Event → Proc → Proc
unfolding count_syscall
run_slice [] p = p
run_slice (tick ∷ es) p = run_slice es (charge_tick p)
run_slice (call ∷ es) p = run_slice es (count_syscall p)
run_slice (boost ∷ es) p = run_slice es (boost_slot p)

-- The level that the events leave, from a level on: a boost sets it to 0.
abbrev pub level_after : List Event → ℕ → ℕ
level_after [] level = level
level_after (tick ∷ es) level = level_after es level
level_after (call ∷ es) level = level_after es level
level_after (boost ∷ es) level = level_after es 0

-- The ticks since the last boost, from a number on.
abbrev pub tick_count : List Event → ℕ → ℕ
tick_count [] n = n
tick_count (tick ∷ es) n = tick_count es (suc n)
tick_count (call ∷ es) n = tick_count es n
tick_count (boost ∷ es) n = tick_count es 0

abbrev pub call_count : List Event → ℕ
call_count [] = 0
call_count (tick ∷ es) = call_count es
call_count (call ∷ es) = suc (call_count es)
call_count (boost ∷ es) = call_count es

-- The state of a slice at the level `level` that began with `start` calls, after `n` ticks since the
-- last boost and `c` calls.
record InSlice (p : Proc) (level start n c : ℕ) : Type 0 where
  running_state : p.state ≡ running
  same_level : p.level ≡ level
  ticks_used : p.current_ticks ≡ n
  expired : p.time_slice_expired ≡ leb (mlfq_quantum level) n
  started : p.slice_start_syscalls ≡ start
  calls : p.syscall_count ≡ start + c

quantum_pos : (l : ℕ) → 0 < mlfq_quantum l
quantum_pos zero = omega arith
quantum_pos (suc zero) = omega arith
quantum_pos (suc (suc zero)) = omega arith
quantum_pos (suc (suc (suc l))) = omega arith

start_slice-InSlice : (p : Proc) → InSlice (start_slice p) p.level p.syscall_count 0 0
unfolding start_slice
start_slice-InSlice p = ground (arith, quantum_pos p.level)

charge_tick-InSlice :
    (p : Proc) (level start n c : ℕ)
    → level < mlfq_levels
    → InSlice p level start n c
    → InSlice (charge_tick p) level start (suc n) c
unfolding charge_tick
charge_tick-InSlice p level start n c b h = ground arith

count_syscall-InSlice :
    (p : Proc) (level start n c : ℕ)
    → InSlice p level start n c
    → InSlice (count_syscall p) level start n (suc c)
unfolding count_syscall
count_syscall-InSlice p level start n c h = ground arith

boost_slot-InSlice :
    (p : Proc) (level start n c : ℕ)
    → InSlice p level start n c
    → InSlice (boost_slot p) 0 start 0 c
boost_slot-InSlice p level start n c h = ground (arith, quantum_pos 0)

run_slice-InSlice :
    (es : List Event) (p : Proc) (level start n c : ℕ)
    → level < mlfq_levels
    → InSlice p level start n c
    → InSlice (run_slice es p) (level_after es level) start (tick_count es n) (c + call_count es)
unfolding run_slice
run_slice-InSlice [] p level start n c b h = ground (arith, h)
run_slice-InSlice (tick ∷ es) p level start n c b h =
    run_slice-InSlice es (charge_tick p) level start (suc n) c b
      (charge_tick-InSlice p level start n c b h)
run_slice-InSlice (call ∷ es) p level start n c b h =
    let step = count_syscall-InSlice p level start n c h in
    ground (arith, run_slice-InSlice es (count_syscall p) level start n (suc c) b step)
run_slice-InSlice (boost ∷ es) p level start n c b h =
    run_slice-InSlice es (boost_slot p) 0 start 0 c (ground arith)
      (boost_slot-InSlice p level start n c h)

level_after-low :
    (es : List Event) (level : ℕ) → level < mlfq_levels → level_after es level < mlfq_levels
level_after-low [] level low = low
level_after-low (tick ∷ es) level low = level_after-low es level low
level_after-low (call ∷ es) level low = level_after-low es level low
level_after-low (boost ∷ es) level low = level_after-low es 0 (ground arith)

-- What one `clockintr` is to a running process: a tick if its processor runs this process, and then
-- a boost if it is one of the boosts of processor 0.
abbrev pub interrupt_events : Bool → Bool → List Event
interrupt_events true true = tick ∷ boost ∷ []
interrupt_events true false = tick ∷ []
interrupt_events false true = boost ∷ []
interrupt_events false false = []

abbrev pub is_boost : ℕ → Sched → Bool
is_boost cpuid s = cpuid == 0 && (s.ticks + 1) % 2 ^ 32 % boost_interval == 0

wakeup_running :
    (me : Option ℕ) (chan i : ℕ) (t : Table) → (t i).state ≡ running → wakeup me chan t i ≡ t i
unfolding wakeup
wakeup_running me chan i t is_running = ground (arith, is_running)

mlfq_boost_at : (t : Table) (i : ℕ) → i < nproc → mlfq_boost t i ≡ boost_slot (t i)
unfolding mlfq_boost
mlfq_boost_at t i low = ground (arith, low)

charge_tick_running : (p : Proc) → p.state ≡ running → (charge_tick p).state ≡ running
unfolding charge_tick
charge_tick_running p is_running = ground (arith, is_running)

-- The rest of `clockintr`, from a table in which the process is still running.
wake_and_boost :
    (me : Option ℕ) (chan cpuid i : ℕ) (s : Sched) (charged : Table)
    → i < nproc
    → (charged i).state ≡ running
    → (if cpuid == 0
          then (record s {
            procs =
                if (s.ticks + 1) % 2 ^ 32 % boost_interval == 0
                then mlfq_boost (wakeup me chan charged)
                else wakeup me chan charged;
            ticks = (s.ticks + 1) % 2 ^ 32;
          })
          else record s { procs = charged }).procs
        i
      ≡ (if is_boost cpuid s then boost_slot (charged i) else charged i)
wake_and_boost me chan cpuid i s charged low still =
    let same = wakeup_running me chan i charged still in
    let boosted = mlfq_boost_at (wakeup me chan charged) i low ∙ ap boost_slot same in
    elim (Bool-cases (cpuid == 0)) [
      | inr other ↦ rw other refl
      | inl first ↦ elim (Bool-cases ((s.ticks + 1) % 2 ^ 32 % boost_interval == 0)) [
        | inl due ↦ rw (first, due) boosted
        | inr early ↦ rw (first, early) same
      ]
    ]

run_slice-interrupt :
    (mine boosts : Bool) (p : Proc)
    → run_slice (interrupt_events mine boosts) p
      ≡ (let q = if mine then charge_tick p else p in if boosts then boost_slot q else q)
unfolding run_slice
run_slice-interrupt true true p = refl
run_slice-interrupt true false p = refl
run_slice-interrupt false true p = refl
run_slice-interrupt false false p = refl

-- Whether this is the process of the slot `i`.
abbrev pub is_slot : Option ℕ → ℕ → Bool
is_slot none i = false
is_slot (some j) i = j == i

-- To every process that is running, on whichever processor, a `clockintr` is what a slice counts: a
-- tick if its processor runs this process, and then a boost if it is processor 0 and the new number
-- of ticks, modulo 2^32, is a multiple of BOOST_INTERVAL. It does nothing else to it.
pub clockintr-run_slice :
    (chan cpuid i : ℕ) (myproc : Option ℕ) (s : Sched)
    → i < nproc
    → (s.procs i).state ≡ running
    → (clockintr chan cpuid myproc s).procs i
      ≡ run_slice (interrupt_events (is_slot myproc i) (is_boost cpuid s)) (s.procs i)
unfolding clockintr
clockintr-run_slice chan cpuid i none s low is_running =
    wake_and_boost none chan cpuid i s s.procs low is_running
    ∙ sym (run_slice-interrupt false (is_boost cpuid s) (s.procs i))
clockintr-run_slice chan cpuid i (some j) s low is_running =
    let charged = update s.procs j (charge_tick (s.procs j)) in
    let here : charged i ≡ (if j == i then charge_tick (s.procs i) else s.procs i) = ground arith in
    let kept = charge_tick_running (s.procs i) is_running in
    let still : (charged i).state ≡ running = ground (arith, here, kept, is_running) in
    wake_and_boost (some j) chan cpuid i s charged low still
    ∙ ap (λ (p : Proc). if is_boost cpuid s then boost_slot p else p) here
    ∙ sym (run_slice-interrupt (j == i) (is_boost cpuid s) (s.procs i))

-- At the `yield` that ends a slice, in which ticks, system calls and boosts came in any order, a
-- process that began at a level in range is at the level it began at, or at level 0 if there was a
-- boost. It goes down one level from there exactly if its ticks since the last boost, or since the
-- start, reached the quantum of that level, it made fewer system calls in the slice than those
-- ticks, and a lower level is left. It is runnable either way.
pub yield-slice :
    (es : List Event) (p : Proc)
    → p.level < mlfq_levels
    → let q = yield_slice (run_slice es (start_slice p)) in
      let level = level_after es p.level in
      let ticks = tick_count es 0 in
      (q.state ≡ runnable)
      × (q.level ≡ (
          if leb (mlfq_quantum level) ticks && ltb (call_count es) ticks && ltb level 3
          then level + 1
          else level))
unfolding yield_slice
yield-slice es p h =
    let r = run_slice es (start_slice p) in
    let low = level_after-low es p.level h in
    let i =
      run_slice-InSlice es (start_slice p) p.level p.syscall_count 0 0 h (start_slice-InSlice p) in
    ground (arith, i, low)
