-- ===== src/Memsys/Swap.antt =====
-- kernel/memsys.c: `swap_page_out`, and the search by which `swap_page_in` finds the page again.
use gem_os_extension.Base.{
  Outcome, ℤ, ℕ, zero, suc, ◌+◌, ◌<◌, ◌≡◌, ◌≢◌, refl, sym, ap, ◌∙◌, subst, inl, inr, true, false,
  Bool-cases, Option, none, some, List, [], ◌∷◌, arith, ◌==◌, update, pos, done, ◌>>=◌,
}
use gem_os_extension.Kernel.{Kernel, FrameEntry, SwapDiskEntry}
use gem_os_extension.Kalloc.Pages.{IsPage}
use gem_os_extension.Disk.Raid.{raid_map_logical_to_physical}
use gem_os_extension.Disk.Queue.{disk_write}
use gem_os_extension.Disk.Queue.Fcfs.{IsQueue}
use gem_os_extension.Request.{count_page, add_disk_request, serve_next}
use gem_os_extension.Request.Alone.{PolicyOk, add-serve}
use gem_os_extension.Vm.{maxva}
use gem_os_extension.Vm.Walk.{walk-reads}
use gem_os_extension.Memsys.Table.{max_swap_disk_entries, swap_capacity, get_frame_entry}
use gem_os_extension.Memsys.Pageout.{
  find_free, write_entries, write_pte, record_swap, swap_to, swap_page_out,
}
use gem_os_extension.Memsys.Pagein.{is_swapped, find_swapped}

-- The search finds the entry that was free, once the page is recorded there and if it is recorded
-- nowhere else.
find_swapped-find_free :
    (table : ℕ → SwapDiskEntry) (e : SwapDiskEntry) (p va n i index : ℕ)
    → ((j : ℕ) → is_swapped p va (table j) ≡ false)
    → is_swapped p va e ≡ true
    → find_free table n i ≡ some index
    → find_swapped (update table index e) p va n i ≡ some index
unfolding find_free find_swapped
find_swapped-find_free table e p va zero i index other this free = absurd (ground (arith, free))
find_swapped-find_free table e p va (suc n) i index other this free =
    let later = find_swapped-find_free table e p va n (i + 1) index other this in
    elim (Bool-cases ((table i).in_use == 0)) [
      | inl z ↦ ground (arith, other i, this, free, z)
      | inr z ↦ ground (arith, other i, this, later, free, z)
    ]

find_free-found :
    (table : ℕ → SwapDiskEntry) (n i index : ℕ)
    → find_free table n i ≡ some index
    → ((table index).in_use ≡ 0) × (index < i + n)
unfolding find_free
find_free-found table zero i index free = absurd (ground (arith, free))
find_free-found table (suc n) i index free =
    let later = find_free-found table n (i + 1) index in
    elim (Bool-cases ((table i).in_use == 0)) [
      | inl z ↦ ground (arith, free, z)
      | inr z ↦ ground (arith, free, z, later)
    ]

-- What is recorded of a page that has been swapped out.
record Recorded (frame owner index block : ℕ) (k k' : Kernel) : Type 0 where
  table : k'.swap_disk_table ≡ (write_entries frame owner index block k).swap_disk_table
  swapped : (k'.frame_table frame).swapped ≡ 1
  swap_index : (k'.frame_table frame).swap_index ≡ some index
  next : k'.next_swap_block ≡ k.next_swap_block
  procs : k'.procs ≡ k.procs
  owner_kept : (k'.frame_table frame).owner ≡ (k.frame_table frame).owner

write_pte-Recorded :
    (frame owner index block : ℕ) (found : Option ℕ) (k : Kernel)
    → Recorded frame owner index block k
        (write_pte found index (write_entries frame owner index block k))
write_pte-Recorded frame owner index block none k = record {
  table = refl;
  swapped = ground arith;
  swap_index = ground arith;
  next = refl;
  procs = refl;
  owner_kept = ground arith;
}
write_pte-Recorded frame owner index block (some pte) k = record {
  table = refl;
  swapped = ground arith;
  swap_index = ground arith;
  next = refl;
  procs = refl;
  owner_kept = ground arith;
}

record_swap-Recorded :
    (frame owner index block : ℕ) (k : Kernel)
    → (k.frame_table frame).vaddr < maxva
    → (k' : Kernel) × (record_swap frame owner index block k ≡ done (pos 0, k'))
      × Recorded frame owner index block k k'
unfolding record_swap
record_swap-Recorded frame owner index block k low =
    let before = write_entries frame owner index block k in
    let (found, e) = walk-reads (k.procs owner).pagetable (k.frame_table frame).vaddr before low in
    (
      write_pte found index before,
      ap (λ r. r >>= λ x. done (pos 0, write_pte x.0 index x.1)) e,
      write_pte-Recorded frame owner index block found k,
    )

-- The page that was recorded is found in the entry that was free.
found-Recorded :
    (frame owner index block va : ℕ) (k k' : Kernel)
    → (k.frame_table frame).vaddr ≡ va
    → find_free k.swap_disk_table max_swap_disk_entries 0 ≡ some index
    → ((j : ℕ) → is_swapped owner va (k.swap_disk_table j) ≡ false)
    → Recorded frame owner index block k k'
    → (find_swapped k'.swap_disk_table owner va max_swap_disk_entries 0 ≡ some index)
      × ((k'.swap_disk_table index).logical_block ≡ some block)
unfolding is_swapped
found-Recorded frame owner index block va k k' at_va free other r =
    let entry : SwapDiskEntry = record {
      in_use = 1;
      owner = some owner;
      vaddr = (k.frame_table frame).vaddr;
      logical_block = some block;
      timestamp = k.ticks;
    } in
    let this : is_swapped owner va entry ≡ true = ground (arith, at_va) in
    (
      ap (λ t. find_swapped t owner va max_swap_disk_entries 0) r.table
          ∙ find_swapped-find_free k.swap_disk_table entry owner va max_swap_disk_entries 0 index
              other this free,
      ap (λ (t : ℕ → SwapDiskEntry). (t index).logical_block) r.table ∙ ground arith,
    )

swap_page_out-record_swap :
    (pa frame owner index : ℕ) (k k2 k3 : Kernel)
    → get_frame_entry k.kernel_end pa ≡ some frame
    → (k.frame_table frame).owner ≡ some owner
    → find_free k.swap_disk_table max_swap_disk_entries 0 ≡ some index
    → k.next_swap_block < swap_capacity
    → add_disk_request disk_write k.next_swap_block pa
        (some owner)
        (record k { next_swap_block = k.next_swap_block + 1 })
      ≡ done (pos 0, k2)
    → serve_next k2 ≡ done k3
    → swap_page_out pa k ≡ record_swap frame owner index k.next_swap_block k3
unfolding swap_page_out swap_to
swap_page_out-record_swap pa frame owner index k k2 k3 e o free left added served =
    ground (arith, e, o, free, left, added, served)

-- What a successful `swap_page_out` leaves: the search for the page comes to the swap entry `index`,
-- which holds the block that was the next one; the frame holds that index and keeps its owner; the
-- next block is one further; and the owner has been charged for one page.
pub record SwappedOut (frame owner index : ℕ) (k : Kernel) (r : Outcome (ℤ × Kernel)) : Type 0 where
  pub after : Kernel
  pub returns : r ≡ done (pos 0, after)
  pub found :
      find_swapped after.swap_disk_table owner (k.frame_table frame).vaddr max_swap_disk_entries 0
      ≡ some index
  pub block : (after.swap_disk_table index).logical_block ≡ some k.next_swap_block
  pub frame_index : (after.frame_table frame).swap_index ≡ some index
  pub owner_kept : (after.frame_table frame).owner ≡ some owner
  pub next : after.next_swap_block ≡ k.next_swap_block + 1
  pub charged : after.procs ≡ count_page disk_write (some owner) k.procs

pub find_swapped-swap_page_out :
    (pa frame owner index page : ℕ) (rest : List ℕ) (k : Kernel)
    → get_frame_entry k.kernel_end pa ≡ some frame
    → (k.frame_table frame).owner ≡ some owner
    → (k.frame_table frame).vaddr < maxva
    → find_free k.swap_disk_table max_swap_disk_entries 0 ≡ some index
    → ((j : ℕ) → is_swapped owner (k.frame_table frame).vaddr (k.swap_disk_table j) ≡ false)
    → k.next_swap_block < swap_capacity
    → (raid_map_logical_to_physical k.disk.raid_mode k.next_swap_block 0 0).status ≡ pos 0
    → IsQueue k.disk []
    → PolicyOk k.disk
    → k.freelist ≡ page ∷ rest
    → IsPage k.kernel_end page
    → page ≢ 0
    → SwappedOut frame owner index k (swap_page_out pa k)
find_swapped-swap_page_out pa frame owner index page rest k e o low free other left ok q policy fl
      ip nz =
    let block = k.next_swap_block in
    let k1 = record k { next_swap_block = block + 1 } in
    let (k2, added, served) =
      add-serve disk_write block pa page (some owner) k1 rest q policy fl ip nz ok in
    let k3 = served.after in
    let frames : k3.frame_table ≡ k.frame_table = ap (λ (x : Kernel). x.frame_table) served.kept in
    let table : k3.swap_disk_table ≡ k.swap_disk_table =
      ap (λ (x : Kernel). x.swap_disk_table) served.kept in
    let at_va = ap (λ (t : ℕ → FrameEntry). (t frame).vaddr) frames in
    let (k', out, r) =
      record_swap-Recorded frame owner index block k3 (subst (λ v. v < maxva) (sym at_va) low) in
    let (found, holds) =
      found-Recorded frame owner index block (k.frame_table frame).vaddr k3 k' at_va
        (ap (λ t. find_free t max_swap_disk_entries 0) table ∙ free)
        (λ j.
          ap (λ (t : ℕ → SwapDiskEntry). is_swapped owner (k.frame_table frame).vaddr (t j)) table
          ∙ other j)
        r in
    record {
      after = k';
      returns =
          swap_page_out-record_swap pa frame owner index k k2 k3 e o free left added served.returns
          ∙ out;
      found = found;
      block = holds;
      frame_index = r.swap_index;
      owner_kept = r.owner_kept ∙ ap (λ (t : ℕ → FrameEntry). (t frame).owner) frames ∙ o;
      next = r.next ∙ ap (λ (x : Kernel). x.next_swap_block) served.kept;
      charged = r.procs ∙ served.charged;
    }
