-- ===== src/Kalloc.antt =====
-- kernel/kalloc.c: the allocator of physical pages. The list that runs through the free pages is a
-- list of their addresses; the junk that a page is filled with is not represented. `kernel_end` is
-- the linker's symbol `end`.
pub mod Pages
use gem_os_extension.Base.{
  ℕ, zero, suc, ◌+◌, ◌*◌, ◌-◌, ◌/◌, ◌%◌, ◌||◌, not, Option, none, some, List, [], ◌∷◌, ltb, leb,
  ◌==◌, if◌then◌else◌, Outcome, done, panic, spin, ◌>>=◌,
}

abbrev pub pgsize : ℕ
pgsize = 4096

abbrev pub kernbase : ℕ
kernbase = 0x80000000

-- KERNBASE and 128 MB.
abbrev pub phystop : ℕ
phystop = 0x88000000

-- On addresses far below 2^64 the mask clears the remainder.
abbrev pub pgrounddown : ℕ → ℕ
pgrounddown a = a - a % pgsize

abbrev pub pgroundup : ℕ → ℕ
pgroundup sz = pgrounddown (sz + pgsize - 1)

unfoldable pub kfree : ℕ → ℕ → List ℕ → Outcome (List ℕ)
kfree kernel_end pa freelist =
    if not (pa % pgsize == 0) || ltb pa kernel_end || leb phystop pa
    then panic
    else done (pa ∷ freelist)

-- The page, or none for the null pointer, and the free list afterwards.
unfoldable pub kalloc : List ℕ → Option ℕ × List ℕ
kalloc [] = (none, [])
kalloc (r ∷ rest) = (some r, rest)

-- The loop of `freerange` on fuel.
unfoldable pub free_from : ℕ → ℕ → ℕ → ℕ → List ℕ → Outcome (List ℕ)
unfolding kfree
free_from kernel_end zero p pa_end freelist = spin
free_from kernel_end (suc fuel) p pa_end freelist =
    let more =
      kfree kernel_end p freelist >>= λ l. free_from kernel_end fuel (p + pgsize) pa_end l in
    if leb (p + pgsize) pa_end then more else done freelist

unfoldable pub freerange : ℕ → ℕ → ℕ → List ℕ → Outcome (List ℕ)
freerange kernel_end pa_start pa_end freelist =
    let p = pgroundup pa_start in free_from kernel_end (suc (pa_end / pgsize)) p pa_end freelist

unfoldable pub kinit : ℕ → Outcome (List ℕ)
kinit kernel_end = freerange kernel_end kernel_end phystop []
