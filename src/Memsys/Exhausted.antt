-- ===== src/Memsys/Exhausted.antt =====
-- kernel/memsys.c: page replacement when the free list is empty, which is when it is called.
use gem_os_extension.Base.{
  ℕ, ◌+◌, ◌≡◌, ◌≢◌, refl, inl, inr, Bool-cases, Option-cases, Option, none, some, [], arith, leb,
  minus_one, Outcome, done, panic, spin, ◌>>=◌,
}
use gem_os_extension.Kernel.{Kernel}
use gem_os_extension.Kalloc.{kalloc}
use gem_os_extension.Disk.Queue.{RequestType}
use gem_os_extension.Request.{add_disk_request}
use gem_os_extension.Memsys.Table.{
  swap_capacity, max_swap_disk_entries, get_frame_entry, frame_index_to_pa, max_frames,
}
use gem_os_extension.Memsys.Evict.{Scan, clock_loop, clock_fuel, scan_start, scan_all}
use gem_os_extension.Memsys.Pageout.{
  find_free, swap_to, swap_page_out, evict_frame, evict_chosen, evict_page,
}
use gem_os_extension.Memsys.Pagein.{new_page}

add_disk_request-empty :
    (type : RequestType) (block buffer : ℕ) (p : Option ℕ) (k : Kernel)
    → k.freelist ≡ []
    → add_disk_request type block buffer p k ≡ done (minus_one, k)
unfolding add_disk_request kalloc
add_disk_request-empty type block buffer p k e = ground (arith, e)

swap_to-empty :
    (pa frame owner index : ℕ) (k : Kernel)
    → k.freelist ≡ []
    → (k' : Kernel) × (swap_to pa frame owner index k ≡ done (minus_one, k'))
unfolding swap_to
swap_to-empty pa frame owner index k e = elim (Bool-cases (leb swap_capacity k.next_swap_block)) [
  | inl full ↦ (k, ground (arith, full))
  | inr left ↦
      let k1 = record k { next_swap_block = k.next_swap_block + 1 } in
      (k1, rw (left, add_disk_request-empty _ k.next_swap_block pa (some owner) k1 e) refl)
]

swap_page_out-empty :
    (pa : ℕ) (k : Kernel)
    → k.freelist ≡ []
    → (k' : Kernel) × (swap_page_out pa k ≡ done (minus_one, k'))
unfolding swap_page_out
swap_page_out-empty pa k e = elim (Option-cases (get_frame_entry k.kernel_end pa)) [
  | inl g ↦ (k, ground (arith, g))
  | inr (frame, g) ↦ elim (Option-cases (k.frame_table frame).owner) [
    | inl o ↦ (k, ground (arith, g, o))
    | inr (owner, o) ↦ elim (Option-cases (find_free k.swap_disk_table max_swap_disk_entries 0)) [
      | inl f ↦ (k, ground (arith, g, o, f))
      | inr (index, f) ↦
          let (k', s) = swap_to-empty pa frame owner index k e in (k', ground (arith, g, o, f, s))
    ]
  ]
]

evict_frame-empty :
    (victim : ℕ) (k : Kernel)
    → k.freelist ≡ []
    → (k' : Kernel) × (evict_frame victim k ≡ done (none, k'))
unfolding evict_frame
evict_frame-empty victim k e =
    let (k', s) = swap_page_out-empty (frame_index_to_pa k.kernel_end victim) k e in
    (k', ground (arith, s))

evict_chosen-empty :
    (s : Scan) (k : Kernel) → k.freelist ≡ [] → (k' : Kernel) × (evict_chosen s k ≡ done (none, k'))
unfolding evict_chosen
evict_chosen-empty s k e =
    let k1 = record k { frame_table = s.table; clock_hand = s.hand } in
    let k2 = record k1 { clock_hand = 0 } in
    let lowest = s.lowest_priority in
    elim (Option-cases s.victim) [
      | inr (victim, v) ↦
          let (k', done_) = evict_frame-empty victim k1 e in (k', ground (arith, v, done_))
      | inl v ↦ elim (Option-cases (scan_all k.procs s.table max_frames 0 none lowest)) [
        | inl a ↦ (k2, ground (arith, v, a))
        | inr (victim, a) ↦
            let (k', done_) = evict_frame-empty victim k2 e in (k', ground (arith, v, a, done_))
      ]
    ]

-- A step that gives none whatever it is given never gives a page.
none_after :
    (o : Outcome Scan) (f : Scan → Outcome (Option ℕ × Kernel)) (pa : ℕ) (k' : Kernel)
    → ((s : Scan) → (k'' : Kernel) × (f s ≡ done (none, k'')))
    → (o >>= f) ≢ done (some pa, k')
none_after (done s) f pa k' h r = let (k'', e) = h s in ground (arith, e, r)
none_after panic f pa k' h r = ground (arith, r)
none_after spin f pa k' h r = ground (arith, r)

evict_page-empty : (k k' : Kernel) (pa : ℕ) → k.freelist ≡ [] → evict_page k ≢ done (some pa, k')
unfolding evict_page
evict_page-empty k k' pa e =
    none_after (clock_loop k.procs k.clock_hand clock_fuel (scan_start k)) (λ s. evict_chosen s k)
      pa k' (λ s. evict_chosen-empty s k e)

-- With an empty free list no page is to be had: `kalloc` fails, and `evict_page`, which is called
-- then, never returns a page, since the disk request that is to save the victim takes a page of its
-- own from the free list.
pub new_page-empty : (k k' : Kernel) (pa : ℕ) → k.freelist ≡ [] → new_page k ≢ done (some pa, k')
unfolding new_page kalloc
new_page-empty k k' pa e r = evict_page-empty k k' pa e (ground (arith, e, r))
