-- ===== src/Vm/Read.antt =====
-- kernel/vm.c: `walk` without `alloc` reads the entry.
use gem_os_extension.Base.{
  ℕ, ◌<◌, ◌≡◌, ◌⊎◌, inl, inr, refl, ap, ◌∙◌, true, false, Bool-cases, leb, Option, none, some,
  Outcome, done, arith,
}
use gem_os_extension.Kernel.{Kernel}
use gem_os_extension.Vm.{pte2pa, is_valid, entry_at, maxva, descend, walk}
use gem_os_extension.Vm.Tree.{mid_of, leaf_of, has_leaf}

descend_found :
    (level va p : ℕ) (k : Kernel)
    → is_valid (k.mem (entry_at p level va)) ≡ true
    → descend false level va p k ≡ (some (pte2pa (k.mem (entry_at p level va))), k)
unfolding descend
descend_found level va p k valid = rw valid refl

descend_missing :
    (level va p : ℕ) (k : Kernel)
    → is_valid (k.mem (entry_at p level va)) ≡ false
    → descend false level va p k ≡ (none, k)
unfolding descend
descend_missing level va p k invalid = rw invalid refl

abbrev last_round : ℕ → Option ℕ × Kernel → Outcome (Option ℕ × Kernel)
last_round va r = elim r.0 [
  | none ↦ done (none, r.1)
  | some pt0 ↦ done (some (entry_at pt0 0 va), r.1)
]

abbrev next_round : ℕ → Option ℕ × Kernel → Outcome (Option ℕ × Kernel)
next_round va r = elim r.0 [
  | none ↦ done (none, r.1)
  | some pt1 ↦ last_round va (descend false 1 va pt1 r.1)
]

pub walk_lem :
    (pt va : ℕ) (k : Kernel)
    → va < maxva
    → ((has_leaf k.mem pt va ≡ true)
        × (walk false pt va k ≡ done (some (entry_at (leaf_of k.mem pt va) 0 va), k)))
      ⊎ ((has_leaf k.mem pt va ≡ false) × (walk false pt va k ≡ done (none, k)))
unfolding walk
walk_lem pt va k low =
    let range : leb maxva va ≡ false = ground (arith, low) in
    let start : walk false pt va k ≡ next_round va (descend false 2 va pt k) = rw range refl in
    elim (Bool-cases (is_valid (k.mem (entry_at pt 2 va)))) [
      | inr invalid ↦
          inr (
            ground (arith, invalid),
            start ∙ ap (next_round va) (descend_missing 2 va pt k invalid),
          )
      | inl valid ↦
          let second = start ∙ ap (next_round va) (descend_found 2 va pt k valid) in
          let m = mid_of k.mem pt va in
          elim (Bool-cases (is_valid (k.mem (entry_at m 1 va)))) [
            | inr none_below ↦ inr (
              ground (arith, none_below),
              second ∙ ap (last_round va) (descend_missing 1 va m k none_below),
            )
            | inl below ↦ inl (
              ground (arith, valid, below),
              second ∙ ap (last_round va) (descend_found 1 va m k below),
            )
          ]
    ]
