-- ===== src/Tests/DiskRuns.antt =====
-- Queues of two and of three requests, and blocks of the disks.
use gem_os_extension.Base.{
  ℕ, ◌≡◌, ◌≢◌, ◌<◌, ◌↔◌, refl, inr, none, some, [], ◌∷◌, arith, ◌==◌, ◌/◌, ◌%◌, ◌+◌, leb,
  if◌then◌else◌, pos,
}
use gem_os_extension.Disk.Raid.{num_disks, raid_mode_5, raid5_map, raid_reverse_map}
use gem_os_extension.Disk.Raid.Laws.{raid5_lem}
use gem_os_extension.Disk.Queue.{
  Disk, DiskRequest, disk_read, latency_of, calculate_disk_latency, enqueue, is_better, scan_step,
  scan_loop, scan_start, unlink, schedule_sstf,
}
use gem_os_extension.Disk.Queue.Chain.{Chain}
use gem_os_extension.Disk.Queue.Fcfs.{IsQueue}
use gem_os_extension.Disk.Queue.Sstf.{Served, schedule_sstf-Served}
use gem_os_extension.Disk.Queue.Tail.{schedule_sstf-IsQueue, schedule_sstf_loses}

abbrev pub request : ℕ → ℕ → DiskRequest
request block next = record {
  type = disk_read;
  logical_block = block;
  disk_id = 0;
  block_on_disk = block;
  buffer = 0;
  proc = none;
  priority = 0;
  timestamp = 0;
  raid_mode = pos 0;
  next = next;
}

abbrev disk : (ℕ → DiskRequest) → ℕ → Disk
disk requests tail = record {
  requests = requests;
  disk_queue_head = 4096;
  disk_queue_tail = tail;
  current_disk_head = λ i. 0;
  disk_sched_policy = pos 1;
  raid_mode = pos 0;
  disk_reads = 0;
  disk_writes = 0;
  total_disk_latency = 0;
  disk_operations = 0;
}

-- The nearest of three requests stands in the middle.
abbrev three : Disk
three =
    disk
      (λ a.
        if a == 4096 then request 90 8192 else if a == 8192 then request 10 12288 else request 30 0)
      12288

-- The nearer of two requests stands at the end.
abbrev two : Disk
two = disk (λ a. if a == 4096 then request 90 8192 else request 10 0) 8192

three-IsQueue : IsQueue three (4096 ∷ 8192 ∷ 12288 ∷ [])
three-IsQueue = record { chain = ground arith; apart = ground arith; tail = refl }

two-IsQueue : IsQueue two (4096 ∷ 8192 ∷ [])
two-IsQueue = record { chain = ground arith; apart = ground arith; tail = refl }

three_next : schedule_sstf 4 three ≡ some (8192, unlink three 8192 4096)
unfolding schedule_sstf scan_loop scan_step is_better latency_of calculate_disk_latency scan_start
three_next = refl

two_next : schedule_sstf 3 two ≡ some (8192, unlink two 8192 4096)
unfolding schedule_sstf scan_loop scan_step is_better latency_of calculate_disk_latency scan_start
two_next = refl

schedule_sstf-Served_example : Served three (4096 ∷ 8192 ∷ 12288 ∷ []) (schedule_sstf 4 three)
schedule_sstf-Served_example =
    schedule_sstf-Served three 4 4096 (8192 ∷ 12288 ∷ []) three-IsQueue (omega arith)

schedule_sstf-IsQueue_example : IsQueue (unlink three 8192 4096) (4096 ∷ 12288 ∷ [])
schedule_sstf-IsQueue_example =
    schedule_sstf-IsQueue three (unlink three 8192 4096) 4 8192 (4096 ∷ []) (12288 ∷ [])
      three-IsQueue (omega arith) three_next (inr (ground arith))

schedule_sstf_loses_example :
    let rest = unlink two 8192 4096 in
    let d' = enqueue 12288 (request 50 0) rest in
    (rest.disk_queue_tail ≡ 8192) × Chain d'.requests d'.disk_queue_head (4096 ∷ [])
schedule_sstf_loses_example =
    schedule_sstf_loses two (unlink two 8192 4096) 3 4096 8192 12288 [] (request 50 0) two-IsQueue
      (omega arith) two_next (ground arith)

raid5_lem_example :
    (((raid5_map 12).status ≡ pos 0) ↔ (12 < 12))
    × ((raid5_map 12).out_disk < num_disks)
    × ((raid5_map 12).out_disk ≢ (12 / 3) % num_disks)
    × ((raid5_map 12 ≡ raid5_map 4) ↔ ◌≡◌ {A = ℕ} 12 4)
    × (raid_reverse_map raid_mode_5 (raid5_map 12).out_disk (raid5_map 12).out_block 0
        ≡ (pos 0, if leb ((12 / 3) % num_disks) (12 % 3) then 12 + 1 else 12))
raid5_lem_example = raid5_lem 12 4 (omega arith) (omega arith)
