-- ===== src/Memsys/Frames.antt =====
-- kernel/memsys.c: the numbering of the frames.
use gem_os_extension.Base.{ℕ, ◌+◌, ◌*◌, ◌-◌, ◌/◌, ◌<◌, ◌≤◌, ◌≡◌, some, arith, pos}
use gem_os_extension.Kalloc.{pgsize, pgroundup, kernbase}
use gem_os_extension.Kalloc.Pages.{IsPage}
use gem_os_extension.Memsys.Table.{
  max_frames, get_frame_entry, frame_index_to_pa, pa_to_frame_index,
}

-- A page of the allocator lies at or above the first frame.
above_first : (kernel_end pa : ℕ) → IsPage kernel_end pa → pgroundup kernel_end ≤ pa
above_first kernel_end pa page = omega (arith, page.aligned, page.above)

-- The pages from the first frame up to PHYSTOP are no more than the table has entries.
below_max :
    (kernel_end pa : ℕ)
    → kernbase ≤ kernel_end
    → IsPage kernel_end pa
    → (pa - pgroundup kernel_end) / pgsize < max_frames
below_max kernel_end pa base page = omega (arith, base, page.below, page.above)

from_first :
    (kernel_end pa : ℕ)
    → IsPage kernel_end pa
    → pgroundup kernel_end + (pa - pgroundup kernel_end) / pgsize * pgsize ≡ pa
from_first kernel_end pa page = omega (arith, page.aligned, above_first kernel_end pa page)

-- In a kernel that ends above KERNBASE a page of the allocator has a frame entry, within the table;
-- the address of that frame is the address of the page, and `pa_to_frame_index` is its index.
pub frame_index_to_pa-get_frame_entry :
    (kernel_end pa : ℕ)
    → kernbase ≤ kernel_end
    → IsPage kernel_end pa
    → (i : ℕ) × (get_frame_entry kernel_end pa ≡ some i)
      × (i < max_frames)
      × (frame_index_to_pa kernel_end i ≡ pa)
      × (pa_to_frame_index kernel_end pa ≡ pos i)
unfolding get_frame_entry frame_index_to_pa pa_to_frame_index
frame_index_to_pa-get_frame_entry kernel_end pa base page =
    let below = below_max kernel_end pa base page in
    let low = above_first kernel_end pa page in
    (
      (pa - pgroundup kernel_end) / pgsize,
      ground (arith, below, low, page.below),
      below,
      from_first kernel_end pa page,
      ground (arith, low, page.below),
    )
