-- ===== src/Vm/Tree.antt =====
-- kernel/vm.c: the tree of a page table, and the map from addresses to entries that it stands for.
use gem_os_extension.Base.{
  ℕ, ◌+◌, ◌*◌, ◌%◌, ◌<◌, ◌≡◌, ◌≢◌, ◌⊎◌, inl, inr, sym, ap, ◌∙◌, Bool, true, Bool-cases, ◌&&◌, ◌==◌,
  if◌then◌else◌, update, arith,
}
use gem_os_extension.Kalloc.{phystop}
use gem_os_extension.Vm.{px, pte2pa, is_valid, entry_at}
use gem_os_extension.Vm.Words.{table_entry_lem, linked, linked-page, linked-other}

-- What each page is for: 1 is the root, and 2 + i and 514 + 512 i + j are the tables below it. 0 is
-- every page that is no table of this tree.
abbrev pub Roles : Type 0
Roles = ℕ → ℕ

-- The tables are aligned pages with roles of their own.
pub record IsTree (mem : ℕ → ℕ) (pt : ℕ) (role : Roles) : Type 0 where
  pub root : role pt ≡ 1
  pub mids :
      (i : ℕ)
      → i < 512
      → is_valid (mem (pt + 8 * i)) ≡ true
      → role (pte2pa (mem (pt + 8 * i))) ≡ 2 + i
  pub leaves :
      (p i j : ℕ)
      → i < 512
      → j < 512
      → role p ≡ 2 + i
      → is_valid (mem (p + 8 * j)) ≡ true
      → role (pte2pa (mem (p + 8 * j))) ≡ 514 + 512 * i + j
  pub aligned : (p : ℕ) → role p ≢ 0 → p % 4096 ≡ 0

-- The tables on the way to an address, and the entry at its end, 0 where there is none.
abbrev pub mid_of : (ℕ → ℕ) → ℕ → ℕ → ℕ
mid_of mem pt va = pte2pa (mem (entry_at pt 2 va))

abbrev pub leaf_of : (ℕ → ℕ) → ℕ → ℕ → ℕ
leaf_of mem pt va = pte2pa (mem (entry_at (mid_of mem pt va) 1 va))

abbrev pub has_leaf : (ℕ → ℕ) → ℕ → ℕ → Bool
has_leaf mem pt va =
    is_valid (mem (entry_at pt 2 va)) && is_valid (mem (entry_at (mid_of mem pt va) 1 va))

abbrev pub entry_of : (ℕ → ℕ) → ℕ → ℕ → ℕ
entry_of mem pt va = if has_leaf mem pt va then mem (entry_at (leaf_of mem pt va) 0 va) else 0

pub px_small : (level va : ℕ) → px level va < 512
px_small level va = omega arith

-- The roles on the way.
pub mid_role :
    (mem : ℕ → ℕ) (pt : ℕ) (role : Roles) (va : ℕ)
    → IsTree mem pt role
    → is_valid (mem (entry_at pt 2 va)) ≡ true
    → role (mid_of mem pt va) ≡ 2 + px 2 va
mid_role mem pt role va h valid = h.mids (px 2 va) (px_small 2 va) valid

pub leaf_role :
    (mem : ℕ → ℕ) (pt : ℕ) (role : Roles) (va : ℕ)
    → IsTree mem pt role
    → has_leaf mem pt va ≡ true
    → role (leaf_of mem pt va) ≡ 514 + 512 * px 2 va + px 1 va
leaf_role mem pt role va h leaf =
    h.leaves (mid_of mem pt va) (px 2 va) (px 1 va) (px_small 2 va) (px_small 1 va)
      (mid_role mem pt role va h (ground (arith, leaf))) (ground (arith, leaf))

abbrev pub linked_mem : (ℕ → ℕ) → ℕ → ℕ → ℕ → ℕ → ℕ
linked_mem mem p j q = linked mem (p + 8 * j) q

-- A zeroed page becomes a table: `code` is its role, and the entry that points to it was invalid.
module _ (mem : ℕ → ℕ) (pt : ℕ) (role : Roles) (p j q : ℕ) where
  pub record IsLink (code : ℕ) : Type 0 where
    pub tree : IsTree mem pt role
    pub table : role p ≢ 0
    pub unused : role q ≡ 0
    pub small : j < 512
    pub page : q % 4096 ≡ 0
    pub low : q < phystop

  pub link_slot :
      (code : ℕ)
      → IsLink code
      → (is_valid (linked_mem mem p j q (p + 8 * j)) ≡ true)
        × (pte2pa (linked_mem mem p j q (p + 8 * j)) ≡ q)
  link_slot code h =
      let (valid, target) = table_entry_lem q h.page h.low in
      (ground (arith, valid), ground (arith, target))

  -- A word of a table that is not the slot.
  pub link_other :
      (code r i : ℕ)
      → IsLink code
      → role r ≢ 0
      → i < 512
      → (r ≢ p) ⊎ (i ≢ j)
      → linked_mem mem p j q (r + 8 * i) ≡ mem (r + 8 * i)
  link_other code r i h table small off =
      let r_aligned = h.tree.aligned r table in
      let p_aligned = h.tree.aligned p h.table in
      let r_q : r ≢ q = λ e. table (ap role e ∙ h.unused) in
      linked-other mem (p + 8 * j) q r i r_aligned h.page small r_q
        (ground (arith, r_aligned, p_aligned, h.small, small, off))

  pub link_empty : (code i : ℕ) → IsLink code → i < 512 → linked_mem mem p j q (q + 8 * i) ≡ 0
  link_empty code i h small =
      let p_q : p ≢ q = λ e. h.table (ap role e ∙ h.unused) in
      linked-page mem p j q i (h.tree.aligned p h.table) h.page p_q small h.small

  pub link_cases :
      (code r i : ℕ)
      → IsLink code
      → role r ≢ 0
      → i < 512
      → ((r ≡ p) × (i ≡ j) × (pte2pa (linked_mem mem p j q (r + 8 * i)) ≡ q))
        ⊎ (((r ≢ p) ⊎ (i ≢ j)) × (linked_mem mem p j q (r + 8 * i) ≡ mem (r + 8 * i)))
  link_cases code r i h table small = elim (Bool-cases (r == p)) [
    | inr other ↦
        let off : (r ≢ p) ⊎ (i ≢ j) = inl (ground (arith, other)) in
        inr (off, link_other code r i h table small off)
    | inl same ↦ elim (Bool-cases (i == j)) [
      | inr other ↦
          let off : (r ≢ p) ⊎ (i ≢ j) = inr (ground (arith, other)) in
          inr (off, link_other code r i h table small off)
      | inl at ↦
          let word : r + 8 * i ≡ p + 8 * j = ground (arith, same, at) in
          inl (
            ground (arith, same),
            ground (arith, at),
            ap (λ a. pte2pa (linked_mem mem p j q a)) word ∙ (link_slot code h).1,
          )
    ]
  ]

  -- The other pages keep their roles.
  pub link_role : (code r : ℕ) → IsLink code → role r ≢ 0 → update role q code r ≡ role r
  link_role code r h table =
      let off : q ≢ r = λ e. table (sym (ap role e) ∙ h.unused) in ground (arith, off)
