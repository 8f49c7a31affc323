-- ===== src/Memsys/Pageout.antt =====
-- kernel/memsys.c: `swap_page_out`, and `evict_page` as a whole.
use Prim.Native.Nat.{bit_or}
use gem_os_extension.Base.{
  ℕ, zero, suc, ◌+◌, ◌*◌, ◌-◌, ◌%◌, ◌^◌, false, not, Option, none, some, leb, ◌==◌, if◌then◌else◌,
  ℤ, pos, minus_one, eq_ℤ, pred_ℤ, update, Outcome, done, ◌>>=◌,
}
use gem_os_extension.Kernel.{Kernel, SwapDiskEntry}
use gem_os_extension.Proc.{Table}
use gem_os_extension.Disk.Queue.{disk_write}
use gem_os_extension.Request.{add_disk_request, serve_next}
use gem_os_extension.Vm.{walk}
use gem_os_extension.Memsys.Table.{
  max_frames, max_swap_disk_entries, swap_capacity, get_frame_entry, frame_index_to_pa,
}
use gem_os_extension.Memsys.Evict.{Scan, clock_loop, clock_fuel, scan_all, scan_start}

unfoldable pub find_free : (ℕ → SwapDiskEntry) → ℕ → ℕ → Option ℕ
find_free table zero i = none
find_free table (suc n) i =
    let rest = find_free table n (i + 1) in if (table i).in_use == 0 then some i else rest

-- The swap entry and the frame of a page that has been written.
abbrev pub write_entries : ℕ → ℕ → ℕ → ℕ → Kernel → Kernel
write_entries frame owner swap_index logical_block k =
    let e = k.frame_table frame in
    record k {
      swap_disk_table = update k.swap_disk_table swap_index (record {
        in_use = 1;
        owner = some owner;
        vaddr = e.vaddr;
        logical_block = some logical_block;
        timestamp = k.ticks;
      });
      frame_table =
          update k.frame_table frame (record e { swapped = 1; swap_index = some swap_index });
    }

-- The page table entry of such a page: no longer valid, with the index of its swap entry.
abbrev pub write_pte : Option ℕ → ℕ → Kernel → Kernel
write_pte none swap_index k = k
write_pte (some pte) swap_index k =
    let entry = k.mem pte in
    record k { mem = update k.mem pte (bit_or (entry - entry % 2) (swap_index * 2 ^ 10)) }

-- The end of `swap_page_out`: the swap entry, the frame and the page table entry.
unfoldable pub record_swap : ℕ → ℕ → ℕ → ℕ → Kernel → Outcome (ℤ × Kernel)
record_swap frame owner swap_index logical_block k =
    walk false (k.procs owner).pagetable (k.frame_table frame).vaddr
      (write_entries frame owner swap_index logical_block k)
    >>= λ r. let (found, k') = r in done (pos 0, write_pte found swap_index k')

-- `swap_page_out` from the block number on, for a frame with an owner and a free swap entry.
unfoldable pub swap_to : ℕ → ℕ → ℕ → ℕ → Kernel → Outcome (ℤ × Kernel)
unfolding record_swap
swap_to pa frame owner swap_index k =
    let logical_block = k.next_swap_block in
    let k1 = record k { next_swap_block = logical_block + 1 } in
    if leb swap_capacity logical_block
    then done (minus_one, k)
    else (add_disk_request disk_write logical_block pa (some owner) k1 >>= λ r.
        let (status, k2) = r in
        if not (eq_ℤ status (pos 0))
        then done (minus_one, k2)
        else (serve_next k2 >>= λ k3. record_swap frame owner swap_index logical_block k3))

unfoldable pub swap_page_out : ℕ → Kernel → Outcome (ℤ × Kernel)
unfolding swap_to
swap_page_out pa k = elim (get_frame_entry k.kernel_end pa) [
  | none ↦ done (minus_one, k)
  | some frame ↦ elim (k.frame_table frame).owner [
    | none ↦ done (minus_one, k)
    | some owner ↦ elim (find_free k.swap_disk_table max_swap_disk_entries 0) [
      | none ↦ done (minus_one, k)
      | some swap_index ↦ swap_to pa frame owner swap_index k
    ]
  ]
]

abbrev pub charge_eviction : Option ℕ → Table → Table
charge_eviction none t = t
charge_eviction (some p) t = update t p (record (t p) {
  pages_evicted = (t p).pages_evicted + 1;
  pages_swapped_out = (t p).pages_swapped_out + 1;
  resident_pages = pred_ℤ (t p).resident_pages;
})

-- `evict_page` from the chosen victim on.
unfoldable pub evict_frame : ℕ → Kernel → Outcome (Option ℕ × Kernel)
evict_frame victim k =
    let pa = frame_index_to_pa k.kernel_end victim in
    swap_page_out pa k >>= λ r.
    let (status, k') = r in
    if not (eq_ℤ status (pos 0))
    then done (none, k')
    else done
        (some pa, record k' { procs = charge_eviction (k'.frame_table victim).owner k'.procs })

-- `evict_page` from the end of its first loop on; `s` is what the loop has left.
unfoldable pub evict_chosen : Scan → Kernel → Outcome (Option ℕ × Kernel)
unfolding evict_frame
evict_chosen s k =
    let k1 = record k { frame_table = s.table; clock_hand = s.hand } in
    elim s.victim [
      | some victim ↦ evict_frame victim k1
      | none ↦
          let k2 = record k1 { clock_hand = 0 } in
          elim (scan_all k.procs s.table max_frames 0 none s.lowest_priority) [
            | none ↦ done (none, k2)
            | some victim ↦ evict_frame victim k2
          ]
    ]

unfoldable pub evict_page : Kernel → Outcome (Option ℕ × Kernel)
unfolding scan_start evict_chosen
evict_page k = clock_loop k.procs k.clock_hand clock_fuel (scan_start k) >>= λ s. evict_chosen s k
