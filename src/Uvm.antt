-- ===== src/Uvm.antt =====
-- kernel/vm.c: the memory of a process: ranges of mappings, growing and shrinking. The contents of a
-- page are the words at its address. Sizes are at most MAXVA, so that no number of pages wraps.
pub mod Mapping
pub mod Range
pub mod Unmap
pub mod Freed
use gem_os_extension.Base.{
  ℕ, zero, suc, ◌+◌, ◌-◌, ◌*◌, ◌/◌, ◌%◌, ◌^◌, Bool, true, false, not, ◌&&◌, Option, none, some,
  List, ltb, leb, ◌==◌, if◌then◌else◌, ℤ, pos, minus_one, update, Outcome, done, panic, spin, ◌>>=◌,
}
use Prim.Native.Nat.{bit_or}
use gem_os_extension.Kalloc.{pgsize, pgroundup, kalloc, kfree}
use gem_os_extension.Kernel.{Kernel}
use gem_os_extension.Vm.{pte_v, maxva, pa2pte, pte2pa, is_valid, clear_page, walk}

-- PTE_R | PTE_U
abbrev pub pte_ru : ℕ
pte_ru = 18

abbrev pub leaf_word : ℕ → ℕ → ℕ
leaf_word pa perm = bit_or (bit_or (pa2pte pa) perm) pte_v

-- PTE_U is set.
abbrev pub is_user : ℕ → Bool
is_user pte = pte / 16 % 2 == 1

-- PTE_R, PTE_W or PTE_X is set.
abbrev pub is_leaf : ℕ → Bool
is_leaf pte = not (pte / 2 % 8 == 0)

unfoldable pub walkaddr : ℕ → ℕ → Kernel → Outcome ℕ
walkaddr pagetable va k =
    let found = walk false pagetable va k >>= λ (found, k1). elim found [
      | none ↦ done 0
      | some pte ↦
          if not (is_valid (k1.mem pte))
          then done 0
          else if not (is_user (k1.mem pte))
          then done 0
          else done (pte2pa (k1.mem pte))
    ] in
    if leb maxva va then done 0 else found

-- The loop of `mappages`; the first argument is the fuel.
unfoldable pub map_from : ℕ → ℕ → ℕ → ℕ → ℕ → ℕ → Kernel → Outcome (ℤ × Kernel)
map_from zero pagetable a last pa perm k = spin
map_from (suc fuel) pagetable a last pa perm k = walk true pagetable a k >>= λ (found, k1).
    elim found [
      | none ↦ done (minus_one, k1)
      | some pte ↦
          let k2 = record k1 { mem = update k1.mem pte (leaf_word pa perm) } in
          let rest = map_from fuel pagetable (a + pgsize) last (pa + pgsize) perm k2 in
          if is_valid (k1.mem pte) then panic else if a == last then done (pos 0, k2) else rest
    ]

unfoldable pub mappages : ℕ → ℕ → ℕ → ℕ → ℕ → Kernel → Outcome (ℤ × Kernel)
mappages pagetable va size pa perm k =
    if not (va % pgsize == 0)
    then panic
    else if not (size % pgsize == 0)
    then panic
    else if size == 0
    then panic
    else map_from (size / pgsize) pagetable va (va + size - pgsize) pa perm k

unfoldable pub uvmcreate : Kernel → Option ℕ × Kernel
uvmcreate k =
    let (page, free) = kalloc k.freelist in
    elim page [
      | none ↦ (none, record k { freelist = free })
      | some pa ↦ (some pa, record k { freelist = free; mem = clear_page pa k.mem })
    ]

-- One round of the loop of `uvmunmap`.
unfoldable pub unmap_one : ℕ → ℕ → Bool → Kernel → Outcome Kernel
unmap_one pagetable a do_free k = walk false pagetable a k >>= λ (found, k1). elim found [
  | none ↦ done k1
  | some pte ↦
      let free =
        if do_free
        then kfree k1.kernel_end (pte2pa (k1.mem pte)) k1.freelist
        else done k1.freelist in
      let cleared = free >>= λ l. done (record k1 { freelist = l; mem = update k1.mem pte 0 }) in
      if not (is_valid (k1.mem pte)) then done k1 else cleared
]

-- The loop, for `n` pages from the address a on.
unfoldable pub unmap_from : ℕ → ℕ → ℕ → Bool → Kernel → Outcome Kernel
unmap_from zero pagetable a do_free k = done k
unmap_from (suc n) pagetable a do_free k =
    unmap_one pagetable a do_free k >>= λ k1. unmap_from n pagetable (a + pgsize) do_free k1

unfoldable pub uvmunmap : ℕ → ℕ → ℕ → Bool → Kernel → Outcome Kernel
uvmunmap pagetable va npages do_free k =
    if not (va % pgsize == 0) then panic else unmap_from npages pagetable va do_free k

unfoldable pub uvmdealloc : ℕ → ℕ → ℕ → Kernel → Outcome (ℕ × Kernel)
uvmdealloc pagetable oldsz newsz k =
    let npages = (pgroundup oldsz - pgroundup newsz) / pgsize in
    let unmapped = uvmunmap pagetable (pgroundup newsz) npages true k >>= λ k1. done (newsz, k1) in
    if leb oldsz newsz
    then done (oldsz, k)
    else if ltb (pgroundup newsz) (pgroundup oldsz)
    then unmapped
    else done (newsz, k)

-- The loop of `uvmalloc` at the address a; the first argument is the fuel.
abbrev is_zero : ℤ → Bool
is_zero (pos n) = n == 0
is_zero _ = false

unfoldable pub alloc_from : ℕ → ℕ → ℕ → ℕ → ℕ → ℕ → Kernel → Outcome (ℕ × Kernel)
alloc_from zero pagetable a oldsz newsz xperm k = spin
alloc_from (suc fuel) pagetable a oldsz newsz xperm k =
    let (page, free) = kalloc k.freelist in
    let k1 = record k { freelist = free } in
    let fail : Kernel → Outcome (ℕ × Kernel) =
      λ k2. uvmdealloc pagetable a oldsz k2 >>= λ (size, k3). done (0, k3) in
    let grown : Outcome (ℕ × Kernel) = elim page [
      | none ↦ fail k1
      | some mem ↦
          mappages pagetable a pgsize mem (bit_or pte_ru xperm)
            (record k1 { mem = clear_page mem k1.mem })
          >>= λ (r, k2).
              let next = alloc_from fuel pagetable (a + pgsize) oldsz newsz xperm k2 in
              let undo =
                kfree k2.kernel_end mem k2.freelist >>= λ l. fail (record k2 { freelist = l }) in
              if is_zero r then next else undo
    ] in
    if ltb a newsz then grown else done (newsz, k)

unfoldable pub uvmalloc : ℕ → ℕ → ℕ → ℕ → Kernel → Outcome (ℕ × Kernel)
uvmalloc pagetable oldsz newsz xperm k =
    let a = pgroundup oldsz in
    if ltb newsz oldsz
    then done (oldsz, k)
    else alloc_from ((newsz - a + pgsize) / pgsize + 1) pagetable a a newsz xperm k
