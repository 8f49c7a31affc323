-- ===== src/Proc.antt =====
-- kernel/proc.h and kernel/proc.c: the process table, and the operations that look through it.
-- The table is a function of the slot; `nproc` slots exist. A process pointer is its slot. A
-- function that takes a process's lock for each slot in turn is one step here. Counters that the
-- kernel only counts up are natural numbers.
pub mod Calls
pub mod Kill
pub mod Wake
pub mod Family
use gem_os_extension.Base.{
  ℕ, zero, suc, ◌+◌, Bool, true, false, not, ◌&&◌, ◌||◌, Option, none, some, ltb, ◌==◌,
  if◌then◌else◌, ℤ, pos, minus_one, eq_ℤ, update,
}

abbrev pub nproc : ℕ
nproc = 64

abbrev pub mlfq_levels : ℕ
mlfq_levels = 4

pub data ProcState : Type 0 where
  unused used sleeping runnable running zombie : ProcState

-- The value of the enumeration's constant.
abbrev pub state_code : ProcState → ℕ
state_code unused = 0
state_code used = 1
state_code sleeping = 2
state_code runnable = 3
state_code running = 4
state_code zombie = 5

abbrev pub in_state : ProcState → ProcState → Bool
in_state s t = state_code s == state_code t

-- `struct proc`, less the saved registers, the kernel stack, the open files and the name.
pub record Proc : Type 0 where
  pub state : ProcState
  pub chan : ℕ
  pub killed : Bool
  pub xstate : ℤ
  pub pid : ℕ
  pub parent : Option ℕ
  pub sz : ℕ
  pub pagetable : ℕ
  pub trapframe : ℕ
  pub syscall_count : ℕ
  pub level : ℕ
  pub current_ticks : ℕ
  pub ticks : ℕ → ℕ
  pub times_scheduled : ℕ
  pub slice_start_syscalls : ℕ
  pub time_slice_expired : Bool
  pub page_faults : ℕ
  pub pages_evicted : ℕ
  pub pages_swapped_in : ℕ
  pub pages_swapped_out : ℕ
  pub resident_pages : ℤ

abbrev pub Table : Type 0
Table = ℕ → Proc

-- One change to each slot.
abbrev pub for_each : (ℕ → Proc → Proc) → Table → Table
for_each f t i = if ltb i nproc then f i (t i) else t i

abbrev pub has_parent : Proc → ℕ → Bool
has_parent p i = elim p.parent [ none ↦ false | some j ↦ j == i ]

-- The first of `n` slots from `i` on that passes the test.
unfoldable pub find_slot : (ℕ → Proc → Bool) → Table → ℕ → ℕ → Option ℕ
find_slot test t zero i = none
find_slot test t (suc n) i =
    let rest = find_slot test t n (i + 1) in if test i (t i) then some i else rest

unfoldable pub init_mlfq_state : Proc → Proc
init_mlfq_state p = record p {
  level = 0;
  current_ticks = 0;
  times_scheduled = 0;
  slice_start_syscalls = 0;
  time_slice_expired = false;
  syscall_count = 0;
  ticks = λ i. if ltb i mlfq_levels then 0 else p.ticks i;
}

unfoldable pub procinit : Table → Table
procinit = for_each (λ i p. record p { state = unused })

-- The pid, and `nextpid` afterwards.
unfoldable pub allocpid : ℕ → ℕ × ℕ
allocpid nextpid = (nextpid, nextpid + 1)

-- The assignments of `allocproc` to the slot that it has found.
unfoldable pub claim : ℕ → Proc → Proc
unfolding init_mlfq_state
claim pid p = record (init_mlfq_state (record p { pid = pid; state = used })) {
  page_faults = 0;
  pages_evicted = 0;
  pages_swapped_in = 0;
  pages_swapped_out = 0;
  resident_pages = pos 0;
}

-- `allocproc` up to its first allocation: the slot that it claims, the table and `nextpid`.
unfoldable pub claim_slot : Table → ℕ → Option (ℕ × Table × ℕ)
unfolding allocpid claim
claim_slot t nextpid = elim (find_slot (λ i p. in_state p.state unused) t nproc 0) [
  | none ↦ none
  | some i ↦ let (pid, next) = allocpid nextpid in some (i, update t i (claim pid (t i)), next)
]

-- `freeproc`, less the pages that it gives back.
unfoldable pub freeproc : Proc → Proc
freeproc p = record p {
  trapframe = 0;
  pagetable = 0;
  sz = 0;
  pid = 0;
  parent = none;
  chan = 0;
  killed = false;
  xstate = pos 0;
  state = unused;
}

unfoldable pub wakeup : Option ℕ → ℕ → Table → Table
wakeup myproc chan = for_each λ i p.
    if elim myproc [ none ↦ false | some j ↦ i == j ]
    then p
    else if in_state p.state sleeping && p.chan == chan
    then record p { state = runnable }
    else p

-- The return value, and the table.
unfoldable pub kkill : ℤ → Table → ℤ × Table
kkill pid t = elim (find_slot (λ i p. eq_ℤ (pos p.pid) pid) t nproc 0) [
  | none ↦ (minus_one, t)
  | some i ↦
      let p = t i in
      (
        pos 0,
        update t i (record p {
          killed = true;
          state = if in_state p.state sleeping then runnable else p.state;
        }),
      )
]

unfoldable pub setkilled : ℕ → Table → Table
setkilled i t = update t i (record (t i) { killed = true })

-- Going to sleep: what `sleep` does before it switches away.
unfoldable pub sleep : ℕ → ℕ → Table → Table
sleep i chan t = update t i (record (t i) { chan = chan; state = sleeping })

-- A parent pointer as a channel.
abbrev pub parent_chan : (ℕ → ℕ) → Option ℕ → ℕ
parent_chan chan_of none = 0
parent_chan chan_of (some q) = chan_of q

-- `chan_of` is the address of a slot, on which its process waits for its children.
module _ (chan_of : ℕ → ℕ) (initproc : ℕ) where
  -- One slot of `reparent`, which wakes init once for each child that it hands over.
  unfoldable pub reparent_slot : Option ℕ → ℕ → ℕ → Table → Table
  reparent_slot myproc p pp t =
      if has_parent (t pp) p
      then wakeup myproc (chan_of initproc) (update t pp (record (t pp) { parent = some initproc }))
      else t

  unfoldable pub reparent_from : Option ℕ → ℕ → ℕ → ℕ → Table → Table
  reparent_from myproc p zero pp t = t
  reparent_from myproc p (suc n) pp t =
      reparent_from myproc p n (pp + 1) (reparent_slot myproc p pp t)

  unfoldable pub reparent : Option ℕ → ℕ → Table → Table
  reparent myproc p = reparent_from myproc p nproc 0

  -- The end of `kexit`: the children go to init, the parent is woken, and the process is a zombie.
  unfoldable pub exit_process : ℕ → ℤ → Table → Table
  exit_process p status t =
      let handed = reparent (some p) p t in
      let woken = wakeup (some p) (parent_chan chan_of (handed p).parent) handed in
      update woken p (record (woken p) { xstate = status; state = zombie })

-- One scan of `kwait`'s loop.
pub data WaitScan : Type 0 where
  reaped : ℕ → WaitScan
  has_children : WaitScan
  no_children : WaitScan

unfoldable pub wait_scan : ℕ → Table → WaitScan
wait_scan p t = elim (find_slot (λ i q. has_parent q p && in_state q.state zombie) t nproc 0) [
  | some i ↦ reaped i
  | none ↦ elim (find_slot (λ i q. has_parent q p) t nproc 0) [
    | some i ↦ has_children
    | none ↦ no_children
  ]
]

-- What `kwait` does after a scan; `copied` is the result of `copyout` to a non-null address.
pub data WaitResult : Type 0 where
  returned : ℤ → Table → WaitResult
  must_sleep : WaitResult

unfoldable pub wait_step : ℕ → Bool → Table → WaitResult
unfolding wait_scan freeproc
wait_step p copied t = elim (wait_scan p t) [
  | reaped i ↦
      if copied
      then returned (pos (t i).pid) (update t i (freeproc (t i)))
      else returned minus_one t
  | has_children ↦ if (t p).killed then returned minus_one t else must_sleep
  | no_children ↦ returned minus_one t
]
