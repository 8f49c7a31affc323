-- ===== src/Kernel.antt =====
-- The globals that the paging code works on: those of kernel/kalloc.c, kernel/disk_sched.c,
-- kernel/memsys.c and kernel/proc.c, and the memory that holds the page tables. Each function is one
-- step: its locks are held throughout, or it runs alone.
use gem_os_extension.Base.{ℕ, Option, List}
use gem_os_extension.Disk.Queue.{Disk}
use gem_os_extension.Proc.{Table}

-- `struct frame_entry`. An index of -1 is none.
pub record FrameEntry : Type 0 where
  pub in_use : ℕ
  pub owner : Option ℕ
  pub vaddr : ℕ
  pub ref_bit : ℕ
  pub swapped : ℕ
  pub swap_index : Option ℕ

-- `struct swap_disk_entry`. A block of -1 is none.
pub record SwapDiskEntry : Type 0 where
  pub in_use : ℕ
  pub owner : Option ℕ
  pub vaddr : ℕ
  pub logical_block : Option ℕ
  pub timestamp : ℕ

-- `kernel_end` is the linker's symbol `end`, and `mem` the 64-bit words of memory by address.
pub record Kernel : Type 0 where
  pub kernel_end : ℕ
  pub freelist : List ℕ
  pub mem : ℕ → ℕ
  pub disk : Disk
  pub procs : Table
  pub ticks : ℕ
  pub frame_table : ℕ → FrameEntry
  pub clock_hand : ℕ
  pub swap_disk_table : ℕ → SwapDiskEntry
  pub next_swap_block : ℕ
