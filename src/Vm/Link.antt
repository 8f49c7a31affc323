-- ===== src/Vm/Link.antt =====
-- kernel/vm.c: a new table leaves the map of addresses as it is.
use gem_os_extension.Base.{
  ℕ, ◌+◌, ◌*◌, ◌%◌, ◌<◌, ◌≡◌, ◌≢◌, inl, inr, sym, ap, ◌∙◌, true, false, Bool-cases, ◌==◌, update,
  update_self, arith,
}
use gem_os_extension.Vm.{px, pte2pa, is_valid, entry_at}
use gem_os_extension.Vm.Tree.{
  Roles, IsTree, mid_of, leaf_of, has_leaf, entry_of, px_small, mid_role, leaf_role, IsLink,
  linked_mem, link_empty, link_cases, link_role,
}

-- The words on the way decide the entry.
pub entry_of_same :
    (mem mem1 : ℕ → ℕ) (pt va : ℕ)
    → mem1 (entry_at pt 2 va) ≡ mem (entry_at pt 2 va)
    → (is_valid (mem (entry_at pt 2 va)) ≡ true
        → mem1 (entry_at (mid_of mem pt va) 1 va) ≡ mem (entry_at (mid_of mem pt va) 1 va))
    → (has_leaf mem pt va ≡ true
        → mem1 (entry_at (leaf_of mem pt va) 0 va) ≡ mem (entry_at (leaf_of mem pt va) 0 va))
    → entry_of mem1 pt va ≡ entry_of mem pt va
entry_of_same mem mem1 pt va e2 e1 e0 = elim (Bool-cases (is_valid (mem (entry_at pt 2 va)))) [
  | inr invalid ↦ ground (arith, invalid, e2)
  | inl valid ↦
      let mid : mid_of mem1 pt va ≡ mid_of mem pt va = ap pte2pa e2 in
      let word : mem1 (entry_at (mid_of mem1 pt va) 1 va) ≡ mem (entry_at (mid_of mem pt va) 1 va) =
        ap (λ x. mem1 (entry_at x 1 va)) mid ∙ e1 valid in
      elim (Bool-cases (is_valid (mem (entry_at (mid_of mem pt va) 1 va)))) [
        | inr none_below ↦ ground (arith, valid, e2, word, none_below)
        | inl below ↦
            let leaf : leaf_of mem1 pt va ≡ leaf_of mem pt va = ap pte2pa word in
            let has : has_leaf mem pt va ≡ true = ground (arith, valid, below) in
            let last : mem1 (entry_at (leaf_of mem1 pt va) 0 va)
                ≡ mem (entry_at (leaf_of mem pt va) 0 va) =
              ap (λ x. mem1 (entry_at x 0 va)) leaf ∙ e0 has in
            ground (arith, e2, word, last)
      ]
]

pub used_role : (r n : ℕ) → r ≡ n → n ≢ 0 → r ≢ 0
used_role r n e given f = ground (arith, e, given, f)

-- A table with a role has words that are valid as before, or is new.
module _ (mem : ℕ → ℕ) (pt : ℕ) (role : Roles) (p j q code : ℕ)
    (h : IsLink mem pt role p j q code) where
  link_root : update role q code pt ≡ 1
  link_root =
      link_role mem pt role p j q code pt h (used_role (role pt) 1 h.tree.root (ground arith))
      ∙ h.tree.root

  link_aligned : (r : ℕ) → update role q code r ≢ 0 → r % 4096 ≡ 0
  link_aligned r table = ground (arith, table, h.page, h.tree.aligned r)

  -- What a valid word of an old table points to.
  link_target :
      (r i n : ℕ)
      → n ≢ 0
      → role r ≢ 0
      → i < 512
      → is_valid (linked_mem mem p j q (r + 8 * i)) ≡ true
      → (is_valid (mem (r + 8 * i)) ≡ true → role (pte2pa (mem (r + 8 * i))) ≡ n)
      → ((r ≡ p) → (i ≡ j) → code ≡ n)
      → update role q code (pte2pa (linked_mem mem p j q (r + 8 * i))) ≡ n
  link_target r i n given table small valid old new =
      elim (link_cases mem pt role p j q code r i h table small) [
        | inl (at_p, at_j, target) ↦
            ap (update role q code) target ∙ update_self role q code ∙ new at_p at_j
        | inr (off, same) ↦
            let points = old (sym (ap is_valid same) ∙ valid) in
            ap (λ w. update role q code (pte2pa w)) same
            ∙ link_role mem pt role p j q code (pte2pa (mem (r + 8 * i))) h
                (used_role (role (pte2pa (mem (r + 8 * i)))) n points given)
            ∙ points
      ]

  -- The last table on the way to an address is not the one with the slot, which is above it.
  link_leaf_word :
      (va : ℕ)
      → role p < 514
      → has_leaf mem pt va ≡ true
      → linked_mem mem p j q (entry_at (leaf_of mem pt va) 0 va)
        ≡ mem (entry_at (leaf_of mem pt va) 0 va)
  link_leaf_word va upper has =
      let l = leaf_of mem pt va in
      let is_leaf = leaf_role mem pt role va h.tree has in
      elim (link_cases mem pt role p j q code l (px 0 va) h
        (used_role (role l) (514 + 512 * px 2 va + px 1 va) is_leaf (ground arith))
        (px_small 0 va)) [
          | inl (at_p, _, _) ↦ absurd (ground (arith, ap role at_p, is_leaf, upper))
          | inr (_, same) ↦ same
        ]

  link_below_mid :
      (va : ℕ)
      → role p < 514
      → is_valid (mem (p + 8 * j)) ≡ false
      → is_valid (mem (entry_at pt 2 va)) ≡ true
      → linked_mem mem p j q (entry_at pt 2 va) ≡ mem (entry_at pt 2 va)
      → entry_of (linked_mem mem p j q) pt va ≡ entry_of mem pt va
  link_below_mid va upper missing valid same =
      let mem1 = linked_mem mem p j q in
      let m = mid_of mem pt va in
      let mid = mid_role mem pt role va h.tree valid in
      elim (link_cases mem pt role p j q code m (px 1 va) h
        (used_role (role m) (2 + px 2 va) mid (ground arith)) (px_small 1 va)) [
          | inl (at_p, at_j, target) ↦
              let slot : entry_at m 1 va ≡ p + 8 * j = ground (arith, at_p, at_j) in
              let old : is_valid (mem (entry_at m 1 va)) ≡ false =
                ap (λ a. is_valid (mem a)) slot ∙ missing in
              let mid1 : mid_of mem1 pt va ≡ m = ap pte2pa same in
              let leaf1 : leaf_of mem1 pt va ≡ q =
                ap (λ x. pte2pa (mem1 (entry_at x 1 va))) mid1 ∙ target in
              let empty : mem1 (entry_at (leaf_of mem1 pt va) 0 va) ≡ 0 =
                ap (λ x. mem1 (entry_at x 0 va)) leaf1
                ∙ link_empty mem pt role p j q code (px 0 va) h (px_small 0 va) in
              ground (arith, old, empty)
          | inr (_, same1) ↦
              entry_of_same mem mem1 pt va same (λ _. same1) (link_leaf_word va upper)
        ]

  pub link_entry :
      (va : ℕ)
      → role p < 514
      → is_valid (mem (p + 8 * j)) ≡ false
      → entry_of (linked_mem mem p j q) pt va ≡ entry_of mem pt va
  link_entry va upper missing =
      let mem1 = linked_mem mem p j q in
      let root_used : role pt ≢ 0 = used_role (role pt) 1 h.tree.root (ground arith) in
      elim (link_cases mem pt role p j q code pt (px 2 va) h root_used (px_small 2 va)) [
        | inl (at_p, at_j, target) ↦
            let slot : entry_at pt 2 va ≡ p + 8 * j = ground (arith, at_p, at_j) in
            let old : is_valid (mem (entry_at pt 2 va)) ≡ false =
              ap (λ a. is_valid (mem a)) slot ∙ missing in
            let empty : mem1 (entry_at (mid_of mem1 pt va) 1 va) ≡ 0 =
              ap (λ x. mem1 (entry_at x 1 va)) target
              ∙ link_empty mem pt role p j q code (px 1 va) h (px_small 1 va) in
            ground (arith, old, empty)
        | inr (_, same) ↦ elim (Bool-cases (is_valid (mem (entry_at pt 2 va)))) [
          | inl valid ↦ link_below_mid va upper missing valid same
          | inr invalid ↦
              entry_of_same mem mem1 pt va same (λ valid. absurd (ground (arith, valid, invalid)))
                (λ has. absurd (ground (arith, has, invalid)))
        ]
      ]

pub link_root-IsTree :
    (mem : ℕ → ℕ) (pt : ℕ) (role : Roles) (j q : ℕ)
    → IsLink mem pt role pt j q (2 + j)
    → IsTree (linked_mem mem pt j q) pt (update role q (2 + j))
link_root-IsTree mem pt role j q h = record {
  root = link_root mem pt role pt j q (2 + j) h;
  mids = λ i small valid.
      link_target mem pt role pt j q (2 + j) h pt i (2 + i) (ground arith)
        (used_role (role pt) 1 h.tree.root (ground arith)) small valid (h.tree.mids i small)
        (λ _ at. ground (arith, at));
  leaves = λ r i k small_i small_k mid valid. elim (Bool-cases (q == r)) [
    | inl new ↦
        let at : q ≡ r = ground (arith, new) in
        let word = link_empty mem pt role pt j q (2 + j) k h small_k in
        let same : linked_mem mem pt j q (r + 8 * k) ≡ 0 =
          ap (λ x. linked_mem mem pt j q (x + 8 * k)) (sym at) ∙ word in
        absurd (ground (arith, valid, same))
    | inr old ↦
        let mid_old : role r ≡ 2 + i = ground (arith, mid, old) in
        link_target mem pt role pt j q (2 + j) h r k (514 + 512 * i + k) (ground arith)
          (used_role (role r) (2 + i) mid_old (ground arith)) small_k valid
          (h.tree.leaves r i k small_i small_k mid_old)
          (λ at_pt _. absurd (ground (arith, mid_old, h.tree.root, ap role at_pt)))
  ];
  aligned = link_aligned mem pt role pt j q (2 + j) h;
}

pub link_mid-IsTree :
    (mem : ℕ → ℕ) (pt : ℕ) (role : Roles) (p i j q : ℕ)
    → i < 512
    → role p ≡ 2 + i
    → IsLink mem pt role p j q (514 + 512 * i + j)
    → IsTree (linked_mem mem p j q) pt (update role q (514 + 512 * i + j))
link_mid-IsTree mem pt role p i j q small mid h = record {
  root = link_root mem pt role p j q (514 + 512 * i + j) h;
  mids = λ k small_k valid.
      link_target mem pt role p j q (514 + 512 * i + j) h pt k (2 + k) (ground arith)
        (used_role (role pt) 1 h.tree.root (ground arith)) small_k valid (h.tree.mids k small_k)
        (λ at_p _. absurd (ground (arith, mid, h.tree.root, ap role at_p)));
  leaves = λ r i1 k small_i small_k mid1 valid. elim (Bool-cases (q == r)) [
    | inl new ↦ absurd (ground (arith, mid1, new, small_i))
    | inr old ↦
        let mid_old : role r ≡ 2 + i1 = ground (arith, mid1, old) in
        link_target mem pt role p j q (514 + 512 * i + j) h r k (514 + 512 * i1 + k) (ground arith)
          (used_role (role r) (2 + i1) mid_old (ground arith)) small_k valid
          (h.tree.leaves r i1 k small_i small_k mid_old)
          (λ at_p at_j.
            let same : 2 + i1 ≡ 2 + i = sym mid_old ∙ ap role at_p ∙ mid in
            ground (arith, at_j, same))
  ];
  aligned = link_aligned mem pt role p j q (514 + 512 * i + j) h;
}
