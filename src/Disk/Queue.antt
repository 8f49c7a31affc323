-- ===== src/Disk/Queue.antt =====
-- kernel/disk_sched.c: the request queue, a linked list of pages, and the two ways to take a
-- request from it. A pointer is its address, and 0 is the null pointer. The locks are held over
-- each whole function, so a function is one step. A walk along the list is on fuel: `none` means
-- that it is still walking.
pub mod Chain
pub mod Fcfs
pub mod Best
pub mod Sstf
pub mod Tail
use gem_os_extension.Base.{
  ℕ, zero, suc, ◌+◌, ◌-◌, Bool, ◌&&◌, ◌||◌, Option, none, some, ltb, ◌==◌, if◌then◌else◌, ℤ, pos,
  minus_one, eq_ℤ, update,
}

abbrev pub disk_sched_fcfs : ℤ
disk_sched_fcfs = pos 0

abbrev pub disk_sched_sstf : ℤ
disk_sched_sstf = pos 1

abbrev pub disk_rotational_delay : ℕ
disk_rotational_delay = 5

pub data RequestType : Type 0 where
  disk_read disk_write : RequestType

-- `struct disk_request`. `proc` is the index of the process in the process table.
pub record DiskRequest : Type 0 where
  pub type : RequestType
  pub logical_block : ℕ
  pub disk_id : ℕ
  pub block_on_disk : ℕ
  pub buffer : ℕ
  pub proc : Option ℕ
  pub priority : ℕ
  pub timestamp : ℕ
  pub raid_mode : ℤ
  pub next : ℕ

-- The globals of disk_sched.c. `requests` is what each page holds, read as a request.
pub record Disk : Type 0 where
  pub requests : ℕ → DiskRequest
  pub disk_queue_head : ℕ
  pub disk_queue_tail : ℕ
  pub current_disk_head : ℕ → ℕ
  pub disk_sched_policy : ℤ
  pub raid_mode : ℤ
  pub disk_reads : ℕ
  pub disk_writes : ℕ
  pub total_disk_latency : ℕ
  pub disk_operations : ℕ

unfoldable pub disk_sched_init : Disk → Disk
disk_sched_init d = record d {
  current_disk_head = λ i. if ltb i 4 then 0 else d.current_disk_head i;
  disk_sched_policy = disk_sched_fcfs;
  raid_mode = pos 0;
}

unfoldable pub disk_queue_init : Disk → Disk
disk_queue_init d = record d { disk_queue_head = 0; disk_queue_tail = 0 }

-- The return value, and the globals after the call.
unfoldable pub setdisksched : ℤ → Disk → ℤ × Disk
setdisksched policy d =
    if eq_ℤ policy disk_sched_fcfs || eq_ℤ policy disk_sched_sstf
    then (pos 0, record d { disk_sched_policy = policy })
    else (minus_one, d)

-- |head - block| + C
unfoldable pub calculate_disk_latency : Disk → ℕ → ℕ → ℕ
calculate_disk_latency d disk requested_block =
    let head = d.current_disk_head disk in
    (if ltb head requested_block then requested_block - head else head - requested_block)
    + disk_rotational_delay

-- The latency of the request at an address.
unfoldable pub latency_of : Disk → ℕ → ℕ
latency_of d a = let r = d.requests a in calculate_disk_latency d r.disk_id r.block_on_disk

-- The end of `add_disk_request`: the filled-in request `r` at the address `a` goes to the tail.
unfoldable pub enqueue : ℕ → DiskRequest → Disk → Disk
enqueue a r d =
    let filled = update d.requests a r in
    let last = d.disk_queue_tail in
    if last == 0
    then record d { requests = filled; disk_queue_head = a; disk_queue_tail = a }
    else record d {
      requests = update filled last (record (filled last) { next = a });
      disk_queue_tail = a;
    }

unfoldable pub schedule_fcfs : Disk → ℕ × Disk
schedule_fcfs d =
    let req = d.disk_queue_head in
    let rest = (d.requests req).next in
    if req == 0 then (0, d) else (
      req,
      record d {
        disk_queue_head = rest;
        disk_queue_tail = if rest == 0 then 0 else d.disk_queue_tail;
      },
    )

-- The variables of the loop in `schedule_sstf`.
pub record Scan : Type 0 where
  pub best : ℕ
  pub prev_best : ℕ
  pub curr : ℕ
  pub prev_curr : ℕ
  pub min_latency : ℕ

-- The test of the loop: nearer, or as near and of a lower level.
unfoldable pub is_better : Disk → Scan → Bool
is_better d s =
    let latency = latency_of d s.curr in
    ltb latency s.min_latency
    || (latency == s.min_latency && ltb (d.requests s.curr).priority (d.requests s.best).priority)

unfoldable pub scan_step : Disk → Scan → Scan
scan_step d s =
    let b = is_better d s in
    record {
      best = if b then s.curr else s.best;
      prev_best = if b then s.prev_curr else s.prev_best;
      curr = (d.requests s.curr).next;
      prev_curr = s.curr;
      min_latency = if b then latency_of d s.curr else s.min_latency;
    }

unfoldable pub scan_loop : Disk → ℕ → Scan → Option Scan
scan_loop d zero s = none
scan_loop d (suc fuel) s =
    let rest = scan_loop d fuel (scan_step d s) in if s.curr == 0 then some s else rest

unfoldable pub scan_start : Disk → Scan
scan_start d = record {
  best = d.disk_queue_head;
  prev_best = 0;
  curr = d.disk_queue_head;
  prev_curr = 0;
  min_latency = latency_of d d.disk_queue_head;
}

-- Takes the request `best` out of the list, and clears its link.
unfoldable pub unlink : Disk → ℕ → ℕ → Disk
unlink d best prev_best =
    let after = (d.requests best).next in
    let head = if prev_best == 0 then after else d.disk_queue_head in
    let linked =
      if prev_best == 0
      then d.requests
      else update d.requests prev_best (record (d.requests prev_best) { next = after }) in
    record d {
      requests = update linked best (record (linked best) { next = 0 });
      disk_queue_head = head;
      disk_queue_tail = if head == 0 then 0 else d.disk_queue_tail;
    }

unfoldable pub schedule_sstf : ℕ → Disk → Option (ℕ × Disk)
schedule_sstf fuel d =
    if d.disk_queue_head == 0 then some (0, d) else elim (scan_loop d fuel (scan_start d)) [
      | none ↦ none
      | some s ↦ some (s.best, unlink d s.best s.prev_best)
    ]

unfoldable pub schedule_next_request : ℕ → Disk → Option (ℕ × Disk)
schedule_next_request fuel d =
    if eq_ℤ d.disk_sched_policy disk_sched_fcfs
    then some (schedule_fcfs d)
    else if eq_ℤ d.disk_sched_policy disk_sched_sstf
    then schedule_sstf fuel d
    else some (0, d)
