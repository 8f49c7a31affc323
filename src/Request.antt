-- ===== src/Request.antt =====
-- kernel/disk_sched.c: the life of a disk request, from `add_disk_request` to its statistics.
pub mod Accounting
pub mod Alone
use gem_os_extension.Base.{
  ℕ, ◌+◌, ◌-◌, ◌/◌, ◌%◌, ◌^◌, Option, none, some, not, eq_ℤ, ◌==◌, ltb, if◌then◌else◌, ℤ, pos,
  minus_one, update, Outcome, done, panic, spin, ◌>>=◌,
}
use gem_os_extension.Kalloc.{kalloc, kfree}
use gem_os_extension.Kernel.{Kernel}
use gem_os_extension.Proc.{mlfq_levels, Table}
use gem_os_extension.Disk.Raid.{Mapping, raid_map_logical_to_physical}
use gem_os_extension.Disk.Queue.{
  Disk, DiskRequest, RequestType, disk_read, disk_write, enqueue, latency_of, schedule_next_request,
  calculate_disk_latency,
}

-- Every queued request is a page of the 128 MB, so a walk along the queue ends within so many
-- rounds.
abbrev pub max_requests : ℕ
max_requests = 32769

abbrev pub priority_of : Option ℕ → Table → ℕ
priority_of none t = mlfq_levels - 1
priority_of (some p) t = (t p).level

-- The fields of a request whose block is mapped.
abbrev pub new_request : RequestType → ℕ → ℕ → Option ℕ → Mapping → Kernel → DiskRequest
new_request type logical_block buffer p mapped k = record {
  type = type;
  logical_block = logical_block;
  disk_id = mapped.out_disk;
  block_on_disk = mapped.out_block;
  buffer = buffer;
  proc = p;
  priority = priority_of p k.procs;
  timestamp = k.ticks;
  raid_mode = k.disk.raid_mode;
  next = 0;
}

-- The return value, and the globals.
unfoldable pub add_disk_request : RequestType → ℕ → ℕ → Option ℕ → Kernel → Outcome (ℤ × Kernel)
add_disk_request type logical_block buffer p k =
    let (page, free) = kalloc k.freelist in
    let mapped = raid_map_logical_to_physical k.disk.raid_mode logical_block 0 0 in
    elim page [
      | none ↦ done (minus_one, k)
      | some req ↦
          if not (eq_ℤ mapped.status (pos 0))
          then (kfree k.kernel_end req free >>= λ l. done (minus_one, record k { freelist = l }))
          else done (
            pos 0,
            record k {
              freelist = free;
              disk = enqueue req (new_request type logical_block buffer p mapped k) k.disk;
            },
          )
    ]

abbrev pub bump_64 : ℕ → ℕ → ℕ
bump_64 counter n = (counter + n) % 2 ^ 64

-- The counters of the disk, by the type of the request.
unfoldable pub count_request : RequestType → ℕ → Disk → Disk
count_request disk_read latency d = record d {
  disk_reads = bump_64 d.disk_reads 1;
  total_disk_latency = bump_64 d.total_disk_latency latency;
  disk_operations = bump_64 d.disk_operations 1;
}
count_request disk_write latency d = record d {
  disk_writes = bump_64 d.disk_writes 1;
  total_disk_latency = bump_64 d.total_disk_latency latency;
  disk_operations = bump_64 d.disk_operations 1;
}

-- The counters of the process that made the request.
unfoldable pub count_page : RequestType → Option ℕ → Table → Table
count_page type none t = t
count_page disk_read (some p) t =
    update t p (record (t p) { pages_swapped_in = (t p).pages_swapped_in + 1 })
count_page disk_write (some p) t =
    update t p (record (t p) { pages_swapped_out = (t p).pages_swapped_out + 1 })

unfoldable pub update_disk_stats : DiskRequest → ℕ → Kernel → Kernel
unfolding count_request count_page
update_disk_stats req latency k = record k {
  disk = count_request req.type latency k.disk;
  procs = count_page req.type req.proc k.procs;
}

-- At the address 0 there is no request.
unfoldable pub process_disk_request : ℕ → Kernel → Kernel
process_disk_request a k =
    let req = k.disk.requests a in
    let latency = calculate_disk_latency k.disk req.disk_id req.block_on_disk in
    let moved = record k {
      disk = record k.disk {
        current_disk_head = update k.disk.current_disk_head req.disk_id req.block_on_disk;
      };
    } in
    if a == 0 then k else update_disk_stats req latency moved

unfoldable pub get_avg_disk_latency : Disk → ℕ
get_avg_disk_latency d =
    if ltb 0 d.disk_operations then d.total_disk_latency / d.disk_operations else 0

-- The lines of `swap_page_out` and `swap_page_in` that serve one request and free its page.
unfoldable pub serve_next : Kernel → Outcome Kernel
serve_next k = elim (schedule_next_request max_requests k.disk) [
  | none ↦ spin
  | some (req, d) ↦
      let k' = process_disk_request req (record k { disk = d }) in
      if req == 0
      then done (record k { disk = d })
      else kfree k.kernel_end req k'.freelist >>= λ l. done (record k' { freelist = l })
]
