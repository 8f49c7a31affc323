-- ===== src/Tests/PagingRuns.antt =====
-- A machine with one page in use, and one free page.
use gem_os_extension.Base.{
  ℕ, ◌≡◌, ◌≢◌, ◌-◌, ◌/◌, refl, inl, false, none, some, List, [], ◌∷◌, length, arith, ◌==◌,
  if◌then◌else◌, pos, done, spin,
}
use gem_os_extension.Kernel.{Kernel}
use gem_os_extension.Kalloc.{phystop, pgsize, pgroundup, kalloc, kinit}
use gem_os_extension.Kalloc.Pages.{IsPage, IsFree, kinit-IsFree}
use gem_os_extension.Disk.Raid.{raid_map_logical_to_physical, raid0_map}
use gem_os_extension.Disk.Queue.{Disk, disk_write}
use gem_os_extension.Disk.Queue.Fcfs.{IsQueue}
use gem_os_extension.Request.{add_disk_request, serve_next}
use gem_os_extension.Request.Alone.{ServedAlone, add-serve}
use gem_os_extension.Memsys.Table.{
  empty_frame, get_frame_entry, frame_index_to_pa, max_swap_disk_entries,
}
use gem_os_extension.Memsys.Evict.{clock_loop}
use gem_os_extension.Memsys.Pageout.{evict_frame, find_free}
use gem_os_extension.Memsys.Exhausted.{new_page-empty}
use gem_os_extension.Memsys.Pagein.{new_page, is_swapped}
use gem_os_extension.Memsys.Clock.{clock_loop-spin}
use gem_os_extension.Memsys.Accounts.{Evicted, evict_frame-Evicted}
use gem_os_extension.Tests.DiskRuns.{request}
use gem_os_extension.Tests.ProcRuns.{family}

abbrev still : Disk
still = record {
  requests = λ a. request 40 0;
  disk_queue_head = 0;
  disk_queue_tail = 0;
  current_disk_head = λ i. 0;
  disk_sched_policy = pos 0;
  raid_mode = pos 0;
  disk_reads = 0;
  disk_writes = 0;
  total_disk_latency = 0;
  disk_operations = 0;
}

-- The kernel ends at its base; frame 2 is a page of the parent, and frame 1 is free.
abbrev pub machine : Kernel
machine = record {
  kernel_end = 2147483648;
  freelist = 2147487744 ∷ [];
  mem = λ a. 0;
  disk = still;
  procs = family;
  ticks = 0;
  frame_table = λ i.
      if i == 2
      then record empty_frame { in_use = 1; owner = some 1; vaddr = 8192; ref_bit = 1 }
      else empty_frame;
  clock_hand = 0;
  swap_disk_table =
      λ i. record { in_use = 0; owner = none; vaddr = 0; logical_block = none; timestamp = 0 };
  next_swap_block = 5;
}

free_page : IsPage 2147483648 2147487744
free_page = record { aligned = refl; above = omega arith; below = omega arith }

machine-IsFree : IsFree 2147483648 (2147487744 ∷ [])
machine-IsFree = record { pages = (free_page, tt); apart = (tt, tt) }

kinit-IsFree_example :
    (l : List ℕ) × (kinit 2281697280 ≡ done l)
    × IsFree 2281697280 l
    × (length l ≡ (phystop - pgroundup 2281697280) / pgsize)
kinit-IsFree_example = kinit-IsFree 2281697280 (omega arith)

machine_kalloc : kalloc (2147487744 ∷ []) ≡ (some 2147487744, [])
unfolding kalloc
machine_kalloc = refl

still-IsQueue : IsQueue still []
still-IsQueue = record { chain = refl; apart = tt; tail = refl }

block_5 : (raid_map_logical_to_physical (pos 0) 5 0 0).status ≡ pos 0
unfolding raid_map_logical_to_physical raid0_map
block_5 = refl

add-serve_example :
    (k1 : Kernel) × (add_disk_request disk_write 5 2147491840 (some 1) machine ≡ done (pos 0, k1))
    × ServedAlone disk_write
        (raid_map_logical_to_physical (pos 0) 5 0 0)
        (some 1)
        machine
        (serve_next k1)
add-serve_example =
    add-serve disk_write 5 2147491840 2147487744 (some 1) machine [] still-IsQueue (inl refl) refl
      free_page (ground arith) block_5

clock_loop-spin_example :
    clock_loop family 0 1000000
      (record { table = λ i. empty_frame; hand = 0; victim = none; lowest_priority = none })
    ≡ spin
clock_loop-spin_example =
    clock_loop-spin family 0 1000000
      (record { table = λ i. empty_frame; hand = 0; victim = none; lowest_priority = none })
      (λ i. refl) refl

machine_find_free : find_free machine.swap_disk_table max_swap_disk_entries 0 ≡ some 0
unfolding find_free
machine_find_free = refl

nothing_swapped : (j : ℕ) → is_swapped 1 8192 (machine.swap_disk_table j) ≡ false
unfolding is_swapped
nothing_swapped j = refl

machine_victim : get_frame_entry 2147483648 (frame_index_to_pa 2147483648 2) ≡ some 2
unfolding get_frame_entry frame_index_to_pa
machine_victim = refl

evict_frame-Evicted_example :
    Evicted (frame_index_to_pa 2147483648 2) 1 machine (evict_frame 2 machine)
evict_frame-Evicted_example =
    evict_frame-Evicted 2 1 0 2147487744 [] machine machine_victim refl (omega arith)
      machine_find_free nothing_swapped (omega arith) block_5 still-IsQueue (inl refl) refl
      free_page (ground arith)

new_page-empty_example :
    new_page (record machine { freelist = [] }) ≢ done (some 2147491840, machine)
new_page-empty_example = new_page-empty (record machine { freelist = [] }) machine 2147491840 refl
