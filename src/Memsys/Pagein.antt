-- ===== src/Memsys/Pagein.antt =====
-- kernel/memsys.c: `swap_page_in`.
use gem_os_extension.Base.{
  ℕ, zero, suc, ◌+◌, Bool, false, ◌&&◌, not, Option, none, some, ◌==◌, if◌then◌else◌, ℤ, pos,
  minus_one, eq_ℤ, suc_ℤ, update, Outcome, done, panic, ◌>>=◌,
}
use gem_os_extension.Kalloc.{kalloc, kfree}
use gem_os_extension.Kernel.{Kernel, SwapDiskEntry}
use gem_os_extension.Disk.Queue.{disk_read}
use gem_os_extension.Request.{add_disk_request, serve_next}
use gem_os_extension.Vm.{mappage, user_data}
use gem_os_extension.Memsys.Table.{max_swap_disk_entries, update_frame_table}
use gem_os_extension.Memsys.Pageout.{evict_page}

-- Whether this is the swap entry of a page.
unfoldable pub is_swapped : ℕ → ℕ → SwapDiskEntry → Bool
is_swapped p va e =
    let owned : Bool = elim e.owner [ none ↦ false | some q ↦ q == p ] in
    not (e.in_use == 0) && owned && e.vaddr == va

unfoldable pub find_swapped : (ℕ → SwapDiskEntry) → ℕ → ℕ → ℕ → ℕ → Option ℕ
find_swapped table p va zero i = none
find_swapped table p va (suc n) i =
    let rest = find_swapped table p va n (i + 1) in
    if is_swapped p va (table i) then some i else rest

-- A page from the allocator, or else an evicted one.
unfoldable pub new_page : Kernel → Outcome (Option ℕ × Kernel)
new_page k =
    let (page, free) = kalloc k.freelist in
    elim page [ some pa ↦ done (some pa, record k { freelist = free }) | none ↦ evict_page k ]

abbrev pub free_page : ℕ → Kernel → Outcome Kernel
free_page pa k = kfree k.kernel_end pa k.freelist >>= λ l. done (record k { freelist = l })

-- The end of `swap_page_in`, once the page has been read: the swap entry is cleared and the page is
-- mapped.
unfoldable pub restore_page : ℕ → ℕ → ℕ → ℕ → Kernel → Outcome (ℤ × Kernel)
unfolding update_frame_table
restore_page p va swap_index new_pa k =
    let cleared = record (k.swap_disk_table swap_index) {
      in_use = 0;
      owner = none;
      vaddr = 0;
      logical_block = none;
    } in
    let k1 = record k { swap_disk_table = update k.swap_disk_table swap_index cleared } in
    mappage (k.procs p).pagetable va new_pa user_data k1 >>= λ r.
    let (status, k2) = r in
    if not (eq_ℤ status (pos 0))
    then (free_page new_pa k2 >>= λ k3. done (minus_one, k3))
    else let k3 = update_frame_table p va new_pa k2 in
      let q = k3.procs p in
      done (
        pos 0,
        record k3 {
          procs = update k3.procs p (record q {
            pages_swapped_in = q.pages_swapped_in + 1;
            resident_pages = suc_ℤ q.resident_pages;
          });
        },
      )

-- The code passes a block of -1 on; `swap_page_out`, which alone sets `in_use`, stores the block that
-- it wrote, so that no entry in use has -1, and `panic` stands for what is not reached.
unfoldable pub swap_page_in : ℕ → ℕ → Kernel → Outcome (ℤ × Kernel)
unfolding restore_page new_page
swap_page_in p va k = elim (find_swapped k.swap_disk_table p va max_swap_disk_entries 0) [
  | none ↦ done (minus_one, k)
  | some swap_index ↦ new_page k >>= λ r.
      let (page, k1) = r in
      elim page [
        | none ↦ done (minus_one, k1)
        | some new_pa ↦ elim (k.swap_disk_table swap_index).logical_block [
          | none ↦ panic
          | some logical_block ↦
              add_disk_request disk_read logical_block new_pa (some p) k1 >>= λ r'.
              let (status, k2) = r' in
              if not (eq_ℤ status (pos 0))
              then (free_page new_pa k2 >>= λ k3. done (minus_one, k3))
              else (serve_next k2 >>= λ k3. restore_page p va swap_index new_pa k3)
        ]
      ]
]
