-- ===== src/Memsys/Table.antt =====
-- kernel/memsys.c: the frame table. A pointer to an entry of a table is its index.
use gem_os_extension.Base.{
  ℕ, ◌+◌, ◌*◌, ◌-◌, ◌/◌, ◌||◌, Option, none, some, ltb, leb, if◌then◌else◌, ℤ, pos, minus_one,
  update,
}
use gem_os_extension.Kalloc.{pgsize, phystop, pgroundup}
use gem_os_extension.Kernel.{Kernel, FrameEntry}

abbrev pub max_frames : ℕ
max_frames = 32768

abbrev pub max_swap_disk_entries : ℕ
max_swap_disk_entries = 32768

-- NUM_DISKS * DISK_BLOCKS_PER_DISK
abbrev pub swap_capacity : ℕ
swap_capacity = 16384

abbrev pub empty_frame : FrameEntry
empty_frame = record {
  in_use = 0;
  owner = none;
  vaddr = 0;
  ref_bit = 0;
  swapped = 0;
  swap_index = none;
}

unfoldable pub get_frame_entry : ℕ → ℕ → Option ℕ
get_frame_entry kernel_end pa =
    let first = pgroundup kernel_end in
    let frame_index = (pa - first) / pgsize in
    if ltb pa first || leb phystop pa
    then none
    else if leb max_frames frame_index
    then none
    else some frame_index

unfoldable pub frame_index_to_pa : ℕ → ℕ → ℕ
frame_index_to_pa kernel_end index = pgroundup kernel_end + index * pgsize

unfoldable pub pa_to_frame_index : ℕ → ℕ → ℤ
pa_to_frame_index kernel_end pa =
    let first = pgroundup kernel_end in
    if ltb pa first || leb phystop pa then minus_one else pos ((pa - first) / pgsize)

-- One change to the entry of a page, if it has one.
abbrev pub at_frame : ℕ → (FrameEntry → FrameEntry) → Kernel → Kernel
at_frame pa f k = elim (get_frame_entry k.kernel_end pa) [
  | none ↦ k
  | some i ↦ record k { frame_table = update k.frame_table i (f (k.frame_table i)) }
]

unfoldable pub set_reference_bit : ℕ → Kernel → Kernel
set_reference_bit pa = at_frame pa (λ e. record e { ref_bit = 1 })

unfoldable pub clear_reference_bit : ℕ → Kernel → Kernel
clear_reference_bit pa = at_frame pa (λ e. record e { ref_bit = 0 })

unfoldable pub update_frame_table : ℕ → ℕ → ℕ → Kernel → Kernel
update_frame_table p va pa = at_frame pa (λ e. record {
  in_use = 1;
  owner = some p;
  vaddr = va;
  ref_bit = 1;
  swapped = 0;
  swap_index = none;
})

unfoldable pub remove_from_frame_table : ℕ → Kernel → Kernel
remove_from_frame_table pa = at_frame pa (λ e. empty_frame)

unfoldable pub frametable_init : Kernel → Kernel
frametable_init k = record k {
  frame_table = λ i. if ltb i max_frames then empty_frame else k.frame_table i;
  swap_disk_table = λ i.
      if ltb i max_swap_disk_entries
      then record (k.swap_disk_table i) {
        in_use = 0;
        owner = none;
        vaddr = 0;
        logical_block = none;
      }
      else k.swap_disk_table i;
}
