-- ===== src/Memsys/Accounts.antt =====
-- kernel/memsys.c: `evict_page` from the chosen victim on, and what it charges the owner.
use gem_os_extension.Base.{
  ℕ, ◌+◌, ◌<◌, ◌≡◌, ◌≢◌, ap, ap₂, ◌∙◌, false, Option, some, List, [], ◌∷◌, arith, pos, pred_ℤ,
  Outcome, done,
}
use gem_os_extension.Kernel.{Kernel}
use gem_os_extension.Proc.{Table}
use gem_os_extension.Kalloc.Pages.{IsPage}
use gem_os_extension.Disk.Raid.{raid_map_logical_to_physical}
use gem_os_extension.Disk.Queue.{disk_write}
use gem_os_extension.Disk.Queue.Fcfs.{IsQueue}
use gem_os_extension.Request.{count_page}
use gem_os_extension.Request.Alone.{PolicyOk}
use gem_os_extension.Vm.{maxva}
use gem_os_extension.Memsys.Table.{
  swap_capacity, max_swap_disk_entries, get_frame_entry, frame_index_to_pa,
}
use gem_os_extension.Memsys.Pageout.{find_free, swap_page_out, charge_eviction, evict_frame}
use gem_os_extension.Memsys.Pagein.{is_swapped}
use gem_os_extension.Memsys.Swap.{SwappedOut, find_swapped-swap_page_out}

-- An evicted page: its address, and the owner's counters. The page is counted twice among those
-- swapped out.
pub record Evicted (pa owner : ℕ) (k : Kernel) (r : Outcome (Option ℕ × Kernel)) : Type 0 where
  pub after : Kernel
  pub returns : r ≡ done (some pa, after)
  pub swapped_out : (after.procs owner).pages_swapped_out ≡ (k.procs owner).pages_swapped_out + 2
  pub evicted : (after.procs owner).pages_evicted ≡ (k.procs owner).pages_evicted + 1
  pub resident : (after.procs owner).resident_pages ≡ pred_ℤ (k.procs owner).resident_pages

charged_twice :
    (owner : ℕ) (t : Table)
    → let t' = charge_eviction (some owner) (count_page disk_write (some owner) t) in
      ((t' owner).pages_swapped_out ≡ (t owner).pages_swapped_out + 2)
      × ((t' owner).pages_evicted ≡ (t owner).pages_evicted + 1)
      × ((t' owner).resident_pages ≡ pred_ℤ (t owner).resident_pages)
unfolding count_page
charged_twice owner t = ground arith

SwappedOut-Evicted :
    (frame owner index : ℕ) (k : Kernel)
    → SwappedOut frame owner index k (swap_page_out (frame_index_to_pa k.kernel_end frame) k)
    → Evicted (frame_index_to_pa k.kernel_end frame) owner k (evict_frame frame k)
unfolding evict_frame
SwappedOut-Evicted frame owner index k s =
    let k' = s.after in
    let table : charge_eviction (k'.frame_table frame).owner k'.procs
        ≡ charge_eviction (some owner) (count_page disk_write (some owner) k.procs) =
      ap₂ charge_eviction s.owner_kept s.charged in
    let (out, evicted, resident) = charged_twice owner k.procs in
    record {
      after = record k' { procs = charge_eviction (k'.frame_table frame).owner k'.procs };
      returns = ground (arith, s.returns);
      swapped_out = ap (λ (t : Table). (t owner).pages_swapped_out) table ∙ out;
      evicted = ap (λ (t : Table). (t owner).pages_evicted) table ∙ evicted;
      resident = ap (λ (t : Table). (t owner).resident_pages) table ∙ resident;
    }

-- A victim with an owner and a virtual address below MAXVA is evicted, where there are a free swap
-- entry, a block left that the RAID mapping accepts, an empty disk queue with one of the two
-- policies, a free page (not at 0) for the request, and no older swap entry of the victim's page:
-- the address of its frame is returned, and the counters of its owner say one page less in memory,
-- one more evicted, and two more swapped out, for the one page.
pub evict_frame-Evicted :
    (frame owner index page : ℕ) (rest : List ℕ) (k : Kernel)
    → get_frame_entry k.kernel_end (frame_index_to_pa k.kernel_end frame) ≡ some frame
    → (k.frame_table frame).owner ≡ some owner
    → (k.frame_table frame).vaddr < maxva
    → find_free k.swap_disk_table max_swap_disk_entries 0 ≡ some index
    → ((j : ℕ) → is_swapped owner (k.frame_table frame).vaddr (k.swap_disk_table j) ≡ false)
    → k.next_swap_block < swap_capacity
    → (raid_map_logical_to_physical k.disk.raid_mode k.next_swap_block 0 0).status ≡ pos 0
    → IsQueue k.disk []
    → PolicyOk k.disk
    → k.freelist ≡ page ∷ rest
    → IsPage k.kernel_end page
    → page ≢ 0
    → Evicted (frame_index_to_pa k.kernel_end frame) owner k (evict_frame frame k)
evict_frame-Evicted frame owner index page rest k e o low free other left ok q policy fl ip nz =
    SwappedOut-Evicted frame owner index k (
      find_swapped-swap_page_out (frame_index_to_pa k.kernel_end frame) frame owner index page rest
        k e o low free other left ok q policy fl ip nz)
