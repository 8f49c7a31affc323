-- ===== src/Uvm/Mapping.antt =====
-- kernel/vm.c: `mappages` on the map of addresses.
use gem_os_extension.Base.{
  ℕ, ◌+◌, ◌*◌, ◌-◌, ◌/◌, ◌%◌, ◌<◌, ◌≡◌, ◌≢◌, inl, inr, sym, ap, ◌∙◌, subst, Bool, true, Bool-cases,
  ◌&&◌, ltb, leb, if◌then◌else◌, List, ◌++◌, All, All-right, arith,
}
use mathlib.Core.List.{append_assoc}
use gem_os_extension.Base.{if-true, if-false}
use gem_os_extension.Kernel.{Kernel}
use gem_os_extension.Vm.{maxva}
use gem_os_extension.Vm.Tree.{Roles, has_leaf, entry_of}
use gem_os_extension.Vm.Grow.{IsVm, Extends}
use gem_os_extension.Vm.Store.{same_entry, stored, stored-IsTree, stored_entry, stored_entry_other}
use gem_os_extension.Uvm.{leaf_word}

-- The tables are sound, and new ones come from the front of the free list; nothing but the memory of
-- tables and the free list changes.
pub record Keeps (pt : ℕ) (k : Kernel) (role : Roles) (k1 : Kernel) (role1 : Roles) : Type 0 where
  pub vm : IsVm k1 pt role1
  pub roles : (r : ℕ) → role r ≢ 0 → role1 r ≡ role r
  pub others : (r : ℕ) → All (λ q. q ≢ r) k.freelist → role1 r ≡ role r
  pub taken : (used : List ℕ) × (k.freelist ≡ used ++ k1.freelist)
  pub frame : k1 ≡ record k { mem = k1.mem; freelist = k1.freelist }

pub Keeps-trans :
    (pt : ℕ) (k k1 k2 : Kernel) (role role1 role2 : Roles)
    → Keeps pt k role k1 role1
    → Keeps pt k1 role1 k2 role2
    → Keeps pt k role k2 role2
Keeps-trans pt k k1 k2 role role1 role2 h g =
    let (used, front) = h.taken in
    let (used1, front1) = g.taken in
    record {
      vm = g.vm;
      roles = λ r table.
          let table1 : role1 r ≢ 0 = λ e. table (sym (h.roles r table) ∙ e) in
          g.roles r table1 ∙ h.roles r table;
      others = λ r off.
          g.others r (All-right (λ q. q ≢ r) used k1.freelist (subst (All (λ q. q ≢ r)) front off))
          ∙ h.others r off;
      taken = (
        used ++ used1,
        front ∙ ap (λ l. used ++ l) front1 ∙ sym (append_assoc used used1 k2.freelist),
      );
      frame =
          g.frame ∙ ap (λ (x : Kernel). record x { mem = k2.mem; freelist = k2.freelist }) h.frame;
    }

-- An address of the range of `len` bytes from `va` on.
abbrev pub in_range : ℕ → ℕ → ℕ → Bool
in_range va len x = leb va x && ltb x (va + len)

-- The map of addresses with a range mapped to the pages from `pa` on.
abbrev pub mapped : (ℕ → ℕ) → ℕ → ℕ → ℕ → ℕ → ℕ → ℕ
mapped entries va len pa perm x =
    if in_range va len x then leaf_word (pa + (x - va) / 4096 * 4096) perm else entries x

-- The first n pages of the range are mapped.
abbrev pub MapTo : ℕ → Kernel → Kernel → ℕ → ℕ → ℕ → ℕ → Type 0
MapTo pt k k1 n va pa perm =
    (x : ℕ) → x < maxva → entry_of k1.mem pt x ≡ mapped (entry_of k.mem pt) va (n * 4096) pa perm x

pub Extends-Keeps :
    (pt : ℕ) (k k1 : Kernel) (role role1 : Roles)
    → Extends pt k role k1 role1
    → Keeps pt k role k1 role1
Extends-Keeps pt k k1 role role1 h = record {
  vm = h.vm;
  roles = h.roles;
  others = h.others;
  taken = h.taken;
  frame = h.frame;
}

-- One page.
module _ (pt a pa perm : ℕ) (k k1 : Kernel) (role role1 : Roles) where
  abbrev pub with_leaf : Kernel
  with_leaf = record k1 { mem = stored k1.mem pt role1 a (leaf_word pa perm) }

  pub with_leaf-Keeps :
      Extends pt k role k1 role1 → has_leaf k1.mem pt a ≡ true → Keeps pt k role with_leaf role1
  with_leaf-Keeps h has = record {
    vm = record {
      tree = stored-IsTree k1.mem pt role1 a (leaf_word pa perm) h.vm.tree has;
      free = record { pages = h.vm.free.pages; apart = h.vm.free.apart };
      unused = h.vm.unused;
    };
    roles = h.roles;
    others = h.others;
    taken = h.taken;
    frame = ap (λ (x : Kernel). record x { mem = with_leaf.mem; freelist = k1.freelist }) h.frame;
  }

  pub with_leaf-MapTo :
      Extends pt k role k1 role1
      → has_leaf k1.mem pt a ≡ true
      → a % 4096 ≡ 0
      → a < maxva
      → MapTo pt k with_leaf 1 a pa perm
  with_leaf-MapTo h has aligned low x low_x = elim (Bool-cases (in_range a 4096 x)) [
    | inl inside ↦
        let page : x / 4096 ≡ a / 4096 = ground (arith, inside, aligned) in
        let target : pa ≡ pa + (x - a) / 4096 * 4096 = ground (arith, inside) in
        same_entry with_leaf.mem pt x a page
        ∙ stored_entry k1.mem pt role1 a (leaf_word pa perm) h.vm.tree has
        ∙ ap (λ p. leaf_word p perm) target
        ∙ sym (
            if-true (in_range a 4096 x) (leaf_word (pa + (x - a) / 4096 * 4096) perm)
              (entry_of k.mem pt x) inside)
    | inr outside ↦
        let page : x / 4096 ≢ a / 4096 = ground (arith, outside, aligned) in
        stored_entry_other k1.mem pt role1 a (leaf_word pa perm) x h.vm.tree has low low_x page
        ∙ h.entries x
        ∙ sym (
            if-false (in_range a 4096 x) (leaf_word (pa + (x - a) / 4096 * 4096) perm)
              (entry_of k.mem pt x) outside)
  ]
