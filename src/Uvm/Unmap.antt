-- ===== src/Uvm/Unmap.antt =====
-- kernel/vm.c: one page taken out of the map of addresses by `uvmunmap`.
use gem_os_extension.Base.{
  ℕ, zero, suc, ◌+◌, ◌*◌, ◌/◌, ◌%◌, ◌<◌, ◌≡◌, ◌≢◌, inl, inr, refl, sym, ap, ◌∙◌, true, false,
  Bool-cases, ◌&&◌, if◌then◌else◌, List, ◌∷◌, All, done, arith,
}
use gem_os_extension.Base.{if-true, if-false}
use gem_os_extension.Kalloc.{kfree}
use gem_os_extension.Kalloc.Pages.{IsPage, kfree-IsPage, kfree-IsFree}
use gem_os_extension.Kernel.{Kernel}
use gem_os_extension.Vm.{is_valid, entry_at, maxva, pte2pa}
use gem_os_extension.Vm.Tree.{Roles, leaf_of, has_leaf, entry_of}
use gem_os_extension.Vm.Grow.{IsVm}
use gem_os_extension.Vm.Store.{same_entry, stored, stored-IsTree, stored_entry, stored_entry_other}
use gem_os_extension.Vm.Read.{walk_lem}
use gem_os_extension.Uvm.{unmap_one}
use gem_os_extension.Uvm.Mapping.{in_range}

-- The mapped pages of a range are pages of memory that are no tables and not free, and no page is
-- mapped twice.
pub record UserPages (pt : ℕ) (k : Kernel) (role : Roles) (va len : ℕ) : Type 0 where
  pub pages :
      (x : ℕ)
      → x < maxva
      → in_range va len x ≡ true
      → is_valid (entry_of k.mem pt x) ≡ true
      → IsPage k.kernel_end (pte2pa (entry_of k.mem pt x))
        × (role (pte2pa (entry_of k.mem pt x)) ≡ 0)
        × All (λ q. pte2pa (entry_of k.mem pt x) ≢ q) k.freelist
  pub apart :
      (x y : ℕ)
      → x < maxva
      → y < maxva
      → in_range va len x ≡ true
      → in_range va len y ≡ true
      → is_valid (entry_of k.mem pt x) ≡ true
      → is_valid (entry_of k.mem pt y) ≡ true
      → x / 4096 ≢ y / 4096
      → pte2pa (entry_of k.mem pt x) ≢ pte2pa (entry_of k.mem pt y)

-- The map of addresses without the mappings of a range; what is there for a page that is not in
-- memory stays.
abbrev pub unmapped : (ℕ → ℕ) → ℕ → ℕ → ℕ → ℕ
unmapped entries va len x = if in_range va len x && is_valid (entries x) then 0 else entries x

-- The mapped pages of n pages from `va` on, each before those that come ahead of it, and a list.
abbrev pub freed_onto : (ℕ → ℕ) → ℕ → ℕ → List ℕ → List ℕ
freed_onto entries va zero l = l
freed_onto entries va (suc n) l =
    freed_onto entries (va + 4096) n (if is_valid (entries va) then pte2pa (entries va) ∷ l else l)

abbrev pub UnmapTo : ℕ → Kernel → Kernel → ℕ → ℕ → Type 0
UnmapTo pt k k1 va len =
    (x : ℕ) → x < maxva → entry_of k1.mem pt x ≡ unmapped (entry_of k.mem pt) va len x

-- What `uvmunmap` leaves: the tables stay.
pub record IsUnmapped (pt : ℕ) (k : Kernel) (role : Roles) (va n : ℕ) (k1 : Kernel) : Type 0 where
  pub vm : IsVm k1 pt role
  pub entries : UnmapTo pt k k1 va (n * 4096)
  pub freelist : k1.freelist ≡ freed_onto (entry_of k.mem pt) va n k.freelist
  pub frame : k1 ≡ record k { mem = k1.mem; freelist = k1.freelist }

module _ (pt a : ℕ) (k : Kernel) (role : Roles) where
  abbrev pub without : Kernel
  without = record k {
    freelist = pte2pa (entry_of k.mem pt a) ∷ k.freelist;
    mem = stored k.mem pt role a 0;
  }

  nothing-IsUnmapped :
      IsVm k pt role
      → a % 4096 ≡ 0
      → is_valid (entry_of k.mem pt a) ≡ false
      → IsUnmapped pt k role a 1 k
  nothing-IsUnmapped h aligned invalid = record {
    vm = h;
    entries = λ x low. elim (Bool-cases (in_range a 4096 x)) [
      | inl inside ↦
          let page : x / 4096 ≡ a / 4096 = ground (arith, inside, aligned) in
          let same = same_entry k.mem pt x a page in
          let gone : is_valid (entry_of k.mem pt x) ≡ false = ap is_valid same ∙ invalid in
          sym (
            if-false (in_range a 4096 x && is_valid (entry_of k.mem pt x)) 0 (entry_of k.mem pt x)
              (ap (λ b. in_range a 4096 x && b) gone ∙ ground (arith, inside)))
      | inr outside ↦ sym (
          if-false (in_range a 4096 x && is_valid (entry_of k.mem pt x)) 0 (entry_of k.mem pt x)
            (ap (λ b. b && is_valid (entry_of k.mem pt x)) outside))
    ];
    freelist = sym (
        if-false (is_valid (entry_of k.mem pt a)) (pte2pa (entry_of k.mem pt a) ∷ k.freelist)
          k.freelist invalid);
    frame = refl;
  }

  without-IsUnmapped :
      IsVm k pt role
      → a % 4096 ≡ 0
      → a < maxva
      → has_leaf k.mem pt a ≡ true
      → is_valid (entry_of k.mem pt a) ≡ true
      → UserPages pt k role a 4096
      → IsUnmapped pt k role a 1 without
  without-IsUnmapped h aligned low has valid user =
      let (page, unused, off) = user.pages a low (ground arith) valid in
      record {
        vm = record {
          tree = stored-IsTree k.mem pt role a 0 h.tree has;
          free =
              kfree-IsFree k.kernel_end (pte2pa (entry_of k.mem pt a)) k.freelist
                (record { pages = h.free.pages; apart = h.free.apart }) page off;
          unused = (unused, h.unused);
        };
        entries = λ x low_x. elim (Bool-cases (in_range a 4096 x)) [
          | inl inside ↦
              let same_page : x / 4096 ≡ a / 4096 = ground (arith, inside, aligned) in
              let was : is_valid (entry_of k.mem pt x) ≡ true =
                ap is_valid (same_entry k.mem pt x a same_page) ∙ valid in
              same_entry without.mem pt x a same_page
              ∙ stored_entry k.mem pt role a 0 h.tree has
              ∙ sym (
                  if-true (in_range a 4096 x && is_valid (entry_of k.mem pt x)) 0
                    (entry_of k.mem pt x)
                    (ap (λ b. in_range a 4096 x && b) was ∙ ground (arith, inside)))
          | inr outside ↦
              let other : x / 4096 ≢ a / 4096 = ground (arith, outside, aligned) in
              stored_entry_other k.mem pt role a 0 x h.tree has low low_x other
              ∙ sym (
                  if-false (in_range a 4096 x && is_valid (entry_of k.mem pt x)) 0
                    (entry_of k.mem pt x) (ap (λ b. b && is_valid (entry_of k.mem pt x)) outside))
        ];
        freelist = sym (
            if-true (is_valid (entry_of k.mem pt a)) (pte2pa (entry_of k.mem pt a) ∷ k.freelist)
              k.freelist valid);
        frame = refl;
      }

pub unmap_round :
    (pt a : ℕ) (k : Kernel) (role : Roles)
    → IsVm k pt role
    → a % 4096 ≡ 0
    → a < maxva
    → UserPages pt k role a 4096
    → (k1 : Kernel) × IsUnmapped pt k role a 1 k1 × (unmap_one pt a true k ≡ done k1)
unfolding unmap_one
unmap_round pt a k role h aligned low user = elim (walk_lem pt a k low) [
  | inr (none_there, e) ↦
      let invalid : is_valid (entry_of k.mem pt a) ≡ false = ground (arith, none_there) in
      (k, nothing-IsUnmapped pt a k role h aligned invalid, rw e refl)
  | inl (has, e) ↦
      let word : entry_of k.mem pt a ≡ k.mem (entry_at (leaf_of k.mem pt a) 0 a) =
        ground (arith, has) in
      elim (Bool-cases (is_valid (entry_of k.mem pt a))) [
        | inr invalid ↦
            let off : is_valid (k.mem (entry_at (leaf_of k.mem pt a) 0 a)) ≡ false =
              ap is_valid (sym word) ∙ invalid in
            (k, nothing-IsUnmapped pt a k role h aligned invalid, rw e (rw off refl))
        | inl valid ↦
            let on : is_valid (k.mem (entry_at (leaf_of k.mem pt a) 0 a)) ≡ true =
              ap is_valid (sym word) ∙ valid in
            let (page, unused, apart) = user.pages a low (ground arith) valid in
            let free =
              (kfree-IsPage k.kernel_end (pte2pa (entry_of k.mem pt a)) k.freelist).1 page in
            let freed : kfree k.kernel_end (pte2pa (k.mem (entry_at (leaf_of k.mem pt a) 0 a)))
                  k.freelist
                ≡ done (pte2pa (entry_of k.mem pt a) ∷ k.freelist) =
              ap (λ w. kfree k.kernel_end (pte2pa w) k.freelist) (sym word) ∙ free in
            (
              without pt a k role,
              without-IsUnmapped pt a k role h aligned low has valid user,
              rw e (rw (on, freed) refl),
            )
      ]
]
