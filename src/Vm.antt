-- ===== src/Vm.antt =====
-- kernel/vm.c, with the macros of kernel/riscv.h: page tables as words of memory, the walk down the
-- three levels, and single mappings. Addresses are below 2^64; a shift to the left wraps there.
pub mod Walk
pub mod Words
pub mod Tree
pub mod Link
pub mod Grow
pub mod Store
pub mod Read
use gem_os_extension.Base.{
  ℕ, zero, suc, ◌+◌, ◌*◌, ◌-◌, ◌/◌, ◌%◌, ◌^◌, Bool, true, false, ◌||◌, not, Option, none, some, ltb,
  leb, ◌==◌, if◌then◌else◌, ℤ, pos, minus_one, update, Outcome, done, panic, spin, ◌>>=◌,
}
use Prim.Native.Nat.{bit_or}
use gem_os_extension.Kalloc.{pgsize, kalloc}
use gem_os_extension.Kernel.{Kernel}

abbrev pub pte_v : ℕ
pte_v = 1

-- PTE_W | PTE_U | PTE_R
abbrev pub user_data : ℕ
user_data = 22

abbrev pub maxva : ℕ
maxva = 2 ^ 38

abbrev pub pa2pte : ℕ → ℕ
pa2pte pa = pa / 2 ^ 12 * 2 ^ 10

abbrev pub pte2pa : ℕ → ℕ
pte2pa pte = pte / 2 ^ 10 * 2 ^ 12 % 2 ^ 64

-- PX(level, va): nine bits of the address.
abbrev pub px : ℕ → ℕ → ℕ
px level va = va / 2 ^ (12 + 9 * level) % 512

-- The lowest bit of an entry.
abbrev pub is_valid : ℕ → Bool
is_valid pte = pte % 2 == 1

-- The address of the entry for `va` in the table at `pt`.
abbrev pub entry_at : ℕ → ℕ → ℕ → ℕ
entry_at pt level va = pt + 8 * px level va

abbrev pub clear_page : ℕ → (ℕ → ℕ) → ℕ → ℕ
clear_page pa mem a = if leb pa a then (if ltb a (pa + pgsize) then 0 else mem a) else mem a

-- One round of the loop of `walk`: the next table, or none for its failure.
unfoldable pub descend : Bool → ℕ → ℕ → ℕ → Kernel → Option ℕ × Kernel
descend alloc level va pt k =
    let pte = entry_at pt level va in
    let (page, free) = kalloc k.freelist in
    if is_valid (k.mem pte)
    then (some (pte2pa (k.mem pte)), k)
    else if not alloc
    then (none, k)
    else elim page [
      | none ↦ (none, record k { freelist = free })
      | some pa ↦ (
        some pa,
        record k {
          freelist = free;
          mem = update (clear_page pa k.mem) pte (bit_or (pa2pte pa) pte_v);
        },
      )
    ]

-- The address of the leaf entry, or none for the null pointer.
unfoldable pub walk : Bool → ℕ → ℕ → Kernel → Outcome (Option ℕ × Kernel)
unfolding descend
walk alloc pagetable va k =
    let (upper, k2) = descend alloc 2 va pagetable k in
    if leb maxva va then panic else elim upper [
      | none ↦ done (none, k2)
      | some pt1 ↦
          let (lower, k1) = descend alloc 1 va pt1 k2 in
          elim lower [ none ↦ done (none, k1) | some pt0 ↦ done (some (entry_at pt0 0 va), k1) ]
    ]

-- `mappages` of one page.
unfoldable pub mappage : ℕ → ℕ → ℕ → ℕ → Kernel → Outcome (ℤ × Kernel)
mappage pagetable va pa perm k =
    if not (va % pgsize == 0)
    then panic
    else walk true pagetable va k >>= λ r.
        let (found, k') = r in
        elim found [
          | none ↦ done (minus_one, k')
          | some pte ↦
              if is_valid (k'.mem pte)
              then panic
              else done (
                pos 0,
                record k' { mem = update k'.mem pte (bit_or (bit_or (pa2pte pa) perm) pte_v) },
              )
        ]

unfoldable pub ismapped : ℕ → ℕ → Kernel → Outcome Bool
ismapped pagetable va k = walk false pagetable va k >>= λ r.
    let (found, k') = r in done (elim found [ none ↦ false | some pte ↦ is_valid (k'.mem pte) ])
