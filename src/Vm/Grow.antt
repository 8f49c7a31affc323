-- ===== src/Vm/Grow.antt =====
-- kernel/vm.c: `walk` with `alloc` finds an entry, or adds the tables to it.
use gem_os_extension.Base.{
  ℕ, ◌+◌, ◌*◌, ◌<◌, ◌≡◌, ◌≢◌, ◌⊎◌, inl, inr, refl, sym, ap, ◌∙◌, subst, true, false, Bool-cases,
  leb, update, Option, none, some, List, [], ◌∷◌, ◌++◌, All, All-both, List-cases, All-right,
  Outcome, done, arith,
}
use mathlib.Core.List.{append_assoc}
use gem_os_extension.Kalloc.{kalloc}
use gem_os_extension.Kalloc.Pages.{IsFree}
use gem_os_extension.Kernel.{Kernel}
use gem_os_extension.Vm.{px, pte2pa, is_valid, entry_at, maxva, descend, walk}
use gem_os_extension.Vm.Tree.{
  Roles, IsTree, mid_of, leaf_of, has_leaf, entry_of, px_small, mid_role, IsLink, linked_mem,
  link_slot, link_cases, link_role,
}
use gem_os_extension.Vm.Link.{used_role, link_entry, link_root-IsTree, link_mid-IsTree}

-- A page table, and free pages that are none of its tables.
pub record IsVm (k : Kernel) (pt : ℕ) (role : Roles) : Type 0 where
  pub tree : IsTree k.mem pt role
  pub free : IsFree k.kernel_end k.freelist
  pub unused : All (λ q. role q ≡ 0) k.freelist

-- Tables were added, from the front of the free list, and the map of addresses is as before.
pub record Extends (pt : ℕ) (k : Kernel) (role : Roles) (k1 : Kernel) (role1 : Roles) : Type 0 where
  pub vm : IsVm k1 pt role1
  pub entries : (va : ℕ) → entry_of k1.mem pt va ≡ entry_of k.mem pt va
  pub words :
      (r i : ℕ)
      → role r ≢ 0
      → i < 512
      → is_valid (k.mem (r + 8 * i)) ≡ true
      → k1.mem (r + 8 * i) ≡ k.mem (r + 8 * i)
  pub roles : (r : ℕ) → role r ≢ 0 → role1 r ≡ role r
  pub others : (r : ℕ) → All (λ q. q ≢ r) k.freelist → role1 r ≡ role r
  pub taken : (used : List ℕ) × (k.freelist ≡ used ++ k1.freelist)
  pub frame : k1 ≡ record k { mem = k1.mem; freelist = k1.freelist }

Extends-refl : (pt : ℕ) (k : Kernel) (role : Roles) → IsVm k pt role → Extends pt k role k role
Extends-refl pt k role h = record {
  vm = h;
  entries = λ va. refl;
  words = λ r i table small valid. refl;
  roles = λ r table. refl;
  others = λ r off. refl;
  taken = ([], refl);
  frame = refl;
}

Extends-trans :
    (pt : ℕ) (k k1 k2 : Kernel) (role role1 role2 : Roles)
    → Extends pt k role k1 role1
    → Extends pt k1 role1 k2 role2
    → Extends pt k role k2 role2
Extends-trans pt k k1 k2 role role1 role2 h g =
    let (used, front) = h.taken in
    let (used1, front1) = g.taken in
    record {
      vm = g.vm;
      entries = λ va. g.entries va ∙ h.entries va;
      words = λ r i table small valid.
          let first = h.words r i table small valid in
          let table1 : role1 r ≢ 0 = λ e. table (sym (h.roles r table) ∙ e) in
          g.words r i table1 small (ap is_valid first ∙ valid) ∙ first;
      roles = λ r table.
          let table1 : role1 r ≢ 0 = λ e. table (sym (h.roles r table) ∙ e) in
          g.roles r table1 ∙ h.roles r table;
      others = λ r off.
          g.others r (All-right (λ q. q ≢ r) used k1.freelist (subst (All (λ q. q ≢ r)) front off))
          ∙ h.others r off;
      taken = (
        used ++ used1,
        front ∙ ap (λ l. used ++ l) front1 ∙ sym (append_assoc used used1 k2.freelist),
      );
      frame =
          g.frame ∙ ap (λ (x : Kernel). record x { mem = k2.mem; freelist = k2.freelist }) h.frame;
    }

-- The page q, the first free one, is linked in at the slot j of the table p.
module _ (pt : ℕ) (k : Kernel) (role : Roles) (p j q : ℕ) (rest : List ℕ) (code : ℕ) where
  abbrev grown : Kernel
  grown = record k { freelist = rest; mem = linked_mem k.mem p j q }

  grown-Extends :
      IsVm k pt role
      → k.freelist ≡ q ∷ rest
      → role p < 514
      → is_valid (k.mem (p + 8 * j)) ≡ false
      → IsLink k.mem pt role p j q code
      → IsTree (linked_mem k.mem p j q) pt (update role q code)
      → Extends pt k role grown (update role q code)
  grown-Extends h front upper missing link tree =
      let free : IsFree k.kernel_end (q ∷ rest) = subst (IsFree k.kernel_end) front h.free in
      let unused : All (λ r. role r ≡ 0) (q ∷ rest) =
        subst (All (λ r. role r ≡ 0)) front h.unused in
      record {
        vm = record {
          tree = tree;
          free = record { pages = free.pages.1; apart = free.apart.1 };
          unused =
              All-both (λ x. q ≢ x) (λ x. role x ≡ 0) (λ x. update role q code x ≡ 0)
                (λ x other zeroed. ground (arith, other, zeroed)) rest free.apart.0 unused.1;
        };
        entries = λ va. link_entry k.mem pt role p j q code link va upper missing;
        words = λ r i table small valid.
            elim (link_cases k.mem pt role p j q code r i link table small) [
              | inl (at_p, at_j, _) ↦
                  let slot : r + 8 * i ≡ p + 8 * j = ground (arith, at_p, at_j) in
                  absurd (ground (arith, valid, ap (λ a. is_valid (k.mem a)) slot ∙ missing))
              | inr (_, same) ↦ same
            ];
        roles = λ r table. link_role k.mem pt role p j q code r link table;
        others = λ r off.
            let apart : q ≢ r = (subst (All (λ x. x ≢ r)) front off).0 in ground (arith, apart);
        taken = (q ∷ [], front);
        frame = refl;
      }

-- What a round of `walk` comes to: the table below, or none when no page is left.
abbrev Descended : ℕ → Kernel → Roles → ℕ → ℕ → Option ℕ × Kernel → Type 0
Descended pt k role j p result =
    ((result ≡ (none, k)) × (k.freelist ≡ []))
    ⊎ ((q : ℕ) × (k1 : Kernel) × (role1 : Roles) × (result ≡ (some q, k1))
        × Extends pt k role k1 role1
        × (is_valid (k1.mem (p + 8 * j)) ≡ true)
        × (pte2pa (k1.mem (p + 8 * j)) ≡ q))

abbrev some_with : ℕ → Kernel → Option ℕ × Kernel
some_with a k = (some a, k)

abbrev none_with : Kernel → Option ℕ × Kernel
none_with k = (none, k)

descend-Descended :
    (pt level va p code : ℕ) (k : Kernel) (role : Roles)
    → IsVm k pt role
    → role p ≢ 0
    → role p < 514
    → ((q : ℕ)
        → IsLink k.mem pt role p (px level va) q code
        → IsTree (linked_mem k.mem p (px level va) q) pt (update role q code))
    → Descended pt k role (px level va) p (descend true level va p k)
unfolding descend kalloc
descend-Descended pt level va p code k role h table upper tree =
    elim (Bool-cases (is_valid (k.mem (entry_at p level va)))) [
      | inl valid ↦ inr (
        pte2pa (k.mem (entry_at p level va)),
        k,
        role,
        rw valid refl,
        Extends-refl pt k role h,
        valid,
        refl,
      )
      | inr missing ↦ elim (List-cases k.freelist) [
        | inl empty ↦
            let same : record k { freelist = (kalloc k.freelist).1 } ≡ k =
              ap (λ l. record k { freelist = l }) (ap (λ l. (kalloc l).1) empty ∙ sym empty) in
            inl (rw (missing, ap kalloc empty) (ap none_with same), empty)
        | inr (q, rest, front) ↦
            let pages = subst (IsFree k.kernel_end) front h.free in
            let link : IsLink k.mem pt role p (px level va) q code = record {
              tree = h.tree;
              table = table;
              unused = (subst (All (λ r. role r ≡ 0)) front h.unused).0;
              small = px_small level va;
              page = pages.pages.0.aligned;
              low = pages.pages.0.below;
            } in
            let slot = link_slot k.mem pt role p (px level va) q code link in
            let list : (kalloc k.freelist).1 ≡ rest = ap (λ l. (kalloc l).1) front in
            let page : (kalloc k.freelist).0 ≡ some q = ap (λ l. (kalloc l).0) front in
            inr (
              q,
              grown pt k role p (px level va) q rest code,
              update role q code,
              rw (missing, page)
                  (ap
                    (λ l.
                      some_with q
                        (record k { freelist = l; mem = linked_mem k.mem p (px level va) q }))
                    list),
              grown-Extends pt k role p (px level va) q rest code h front upper missing link
                  (tree q link),
              slot.0,
              slot.1,
            )
      ]
    ]

-- Where the entry is, or that no page is left.
abbrev pub Walked : ℕ → ℕ → Kernel → Roles → Outcome (Option ℕ × Kernel) → Type 0
Walked pt va k role result =
    (k1 : Kernel) × (role1 : Roles) × Extends pt k role k1 role1
    × (((result ≡ done (none, k1)) × (k1.freelist ≡ []))
        ⊎ ((result ≡ done (some (entry_at (leaf_of k1.mem pt va) 0 va), k1))
            × (has_leaf k1.mem pt va ≡ true)))

module _ (pt va : ℕ) (k k1 k2 : Kernel) (role1 role2 : Roles) (m l : ℕ) where
  found_leaf :
      IsVm k1 pt role1
      → Extends pt k1 role1 k2 role2
      → is_valid (k1.mem (entry_at pt 2 va)) ≡ true
      → mid_of k1.mem pt va ≡ m
      → is_valid (k2.mem (entry_at m 1 va)) ≡ true
      → pte2pa (k2.mem (entry_at m 1 va)) ≡ l
      → (has_leaf k2.mem pt va ≡ true) × (leaf_of k2.mem pt va ≡ l)
  found_leaf vm ext2 valid mid valid2 at_l =
      let root_used : role1 pt ≢ 0 = used_role (role1 pt) 1 vm.tree.root (ground arith) in
      let same = ext2.words pt (px 2 va) root_used (px_small 2 va) valid in
      let mid2 : mid_of k2.mem pt va ≡ m = ap pte2pa same ∙ mid in
      let word : k2.mem (entry_at (mid_of k2.mem pt va) 1 va) ≡ k2.mem (entry_at m 1 va) =
        ap (λ x. k2.mem (entry_at x 1 va)) mid2 in
      (ground (arith, ap is_valid same ∙ valid, ap is_valid word ∙ valid2), ap pte2pa word ∙ at_l)

-- The rounds of `walk` behind its first one.
abbrev last_round : ℕ → Option ℕ × Kernel → Outcome (Option ℕ × Kernel)
last_round va r = elim r.0 [
  | none ↦ done (none, r.1)
  | some pt0 ↦ done (some (entry_at pt0 0 va), r.1)
]

abbrev next_round : ℕ → Option ℕ × Kernel → Outcome (Option ℕ × Kernel)
next_round va r = elim r.0 [
  | none ↦ done (none, r.1)
  | some pt1 ↦ last_round va (descend true 1 va pt1 r.1)
]

-- `walk` with `alloc` below MAXVA, in a page table that is a tree whose tables are not free, gives
-- the address of the entry, and then the table has one, or gives none, and then no page is left;
-- the map of addresses to entries stays as it is.
pub walk-Walked :
    (pt va : ℕ) (k : Kernel) (role : Roles)
    → va < maxva
    → IsVm k pt role
    → Walked pt va k role (walk true pt va k)
unfolding walk
walk-Walked pt va k role low h =
    let range : leb maxva va ≡ false = ground (arith, low) in
    let root = h.tree.root in
    let start : walk true pt va k ≡ next_round va (descend true 2 va pt k) = rw range refl in
    elim (descend-Descended pt 2 va pt (2 + px 2 va) k role h
      (used_role (role pt) 1 root (ground arith)) (ground (arith, root))
      (link_root-IsTree k.mem pt role (px 2 va))) [
        | inl (e, empty) ↦
            (k, role, Extends-refl pt k role h, inl (start ∙ ap (next_round va) e, empty))
        | inr (m, k1, role1, e, ext, valid, mid) ↦
            let role_m : role1 m ≡ 2 + px 2 va =
              ap role1 (sym mid) ∙ mid_role k1.mem pt role1 va ext.vm.tree valid in
            elim (descend-Descended pt 1 va m (514 + 512 * px 2 va + px 1 va) k1 role1 ext.vm
              (used_role (role1 m) (2 + px 2 va) role_m (ground arith)) (ground (arith, role_m))
              (λ q.
                link_mid-IsTree k1.mem pt role1 m (px 2 va) (px 1 va) q (px_small 2 va) role_m)) [
                  | inl (e2, empty) ↦ (
                    k1,
                    role1,
                    ext,
                    inl (start ∙ ap (next_round va) e ∙ ap (last_round va) e2, empty),
                  )
                  | inr (l, k2, role2, e2, ext2, valid2, at_l) ↦
                      let (has, leaf) =
                        found_leaf pt va k k1 k2 role1 role2 m l ext.vm ext2 valid mid valid2
                          at_l in
                      (
                        k2,
                        role2,
                        Extends-trans pt k k1 k2 role role1 role2 ext ext2,
                        inr (
                          start
                              ∙ ap (next_round va) e
                              ∙ ap (last_round va) e2
                              ∙ ap (λ x. done (some_with (entry_at x 0 va) k2)) (sym leaf),
                          has,
                        ),
                      )
                ]
      ]
