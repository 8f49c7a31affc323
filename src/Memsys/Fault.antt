-- ===== src/Memsys/Fault.antt =====
-- kernel/vm.c: `vmfault`, which fills a page or brings it back from the swap space.
use Prim.Native.Nat.{bit_or}
use gem_os_extension.Base.{
  ℕ, ◌+◌, Bool, false, ◌&&◌, not, Option, none, some, leb, ◌==◌, if◌then◌else◌, pos, eq_ℤ, suc_ℤ,
  update, Outcome, done, ◌>>=◌,
}
use gem_os_extension.Kalloc.{pgrounddown}
use gem_os_extension.Kernel.{Kernel}
use gem_os_extension.Vm.{walk, mappage, is_valid, user_data, clear_page}
use gem_os_extension.Memsys.Table.{update_frame_table}
use gem_os_extension.Memsys.Pagein.{new_page, free_page, swap_page_in}

abbrev pub count_fault : ℕ → Kernel → Kernel
count_fault p k = record k {
  procs = update k.procs p (record (k.procs p) { page_faults = (k.procs p).page_faults + 1 });
}

-- `vmfault` for a page that has never been mapped; 0 is its failure.
unfoldable pub fill_page : ℕ → ℕ → Kernel → Outcome (ℕ × Kernel)
unfolding new_page update_frame_table
fill_page p va k = new_page (count_fault p k) >>= λ r.
    let (page, k1) = r in
    elim page [
      | none ↦ done (0, k1)
      | some pa ↦
          mappage (k1.procs p).pagetable va pa user_data (record k1 { mem = clear_page pa k1.mem })
          >>= λ r'.
              let (status, k2) = r' in
              if not (eq_ℤ status (pos 0))
              then (free_page pa k2 >>= λ k3. done (0, k3))
              else let k3 = update_frame_table p va pa k2 in
                let q = k3.procs p in
                done (
                  pa,
                  record k3 {
                    procs =
                        update k3.procs p (record q { resident_pages = suc_ℤ q.resident_pages });
                  },
                )
    ]

-- `vmfault` from the test whether the page is mapped on.
unfoldable pub fault_in : ℕ → ℕ → ℕ → Kernel → Outcome (ℕ × Kernel)
unfolding fill_page
fault_in p pagetable va k = walk false pagetable va k >>= λ r.
    let (found, k') = r in
    elim found [
      | none ↦ fill_page p va k'
      | some pte ↦
          if is_valid (k'.mem pte)
          then done (0, record k' { mem = update k'.mem pte (bit_or (k'.mem pte) 64) })
          else fill_page p va k'
    ]

abbrev pub in_swap : Option ℕ → Kernel → Bool
in_swap none k = false
in_swap (some pte) k = not (is_valid (k.mem pte)) && not (k.mem pte == 0)

-- `vmfault` for the current process `p`.
unfoldable pub vmfault : ℕ → ℕ → ℕ → Kernel → Outcome (ℕ × Kernel)
unfolding fault_in
vmfault p pagetable va k =
    let page = pgrounddown va in
    if leb (k.procs p).sz va
    then done (0, k)
    else (walk false pagetable page k >>= λ r.
        let (found, k1) = r in
        if in_swap found k1
        then (swap_page_in p page k1 >>= λ r'.
            let (status, k2) = r' in
            if eq_ℤ status (pos 0)
            then done (0, count_fault p k2)
            else fault_in p pagetable page k2)
        else fault_in p pagetable page k1)
