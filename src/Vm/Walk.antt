-- ===== src/Vm/Walk.antt =====
-- kernel/vm.c: `walk` without `alloc` only reads.
use gem_os_extension.Base.{
  ℕ, ◌<◌, ◌≡◌, false, Bool-cases, Option-cases, inl, inr, Option, none, some, arith, done,
}
use gem_os_extension.Kernel.{Kernel}
use gem_os_extension.Vm.{maxva, descend, walk, is_valid, entry_at, pte2pa}

descend-reads :
    (level va pt : ℕ) (k : Kernel) → (found : Option ℕ) × (descend false level va pt k ≡ (found, k))
unfolding descend
descend-reads level va pt k = elim (Bool-cases (is_valid (k.mem (entry_at pt level va)))) [
  | inl v ↦ (some (pte2pa (k.mem (entry_at pt level va))), ground (arith, v))
  | inr n ↦ (none, ground (arith, n))
]

-- Below MAXVA, `walk` without `alloc` returns and changes nothing.
pub walk-reads :
    (pagetable va : ℕ) (k : Kernel)
    → va < maxva
    → (found : Option ℕ) × (walk false pagetable va k ≡ done (found, k))
unfolding walk
walk-reads pagetable va k low =
    let (upper, e2) = descend-reads 2 va pagetable k in
    elim (Option-cases upper) [
      | inl u ↦ (none, ground (arith, e2, u, low))
      | inr (pt1, u) ↦
          let (lower, e1) = descend-reads 1 va pt1 k in
          elim (Option-cases lower) [
            | inl l ↦ (none, ground (arith, e2, u, e1, l, low))
            | inr (pt0, l) ↦ (some (entry_at pt0 0 va), ground (arith, e2, u, e1, l, low))
          ]
    ]
