-- ===== src/Vm/Store.antt =====
-- kernel/vm.c: a store to the entry of an address, and a read of it.
use gem_os_extension.Base.{
  ℕ, ◌+◌, ◌*◌, ◌/◌, ◌%◌, ◌<◌, ◌≡◌, ◌≢◌, ◌⊎◌, inl, inr, sym, ap, ◌∙◌, true, Bool-cases, ◌&&◌, ◌==◌,
  if◌then◌else◌, update, update_self, update_other, arith,
}
use gem_os_extension.Vm.{px, pte2pa, is_valid, entry_at, maxva}
use gem_os_extension.Vm.Tree.{
  Roles, IsTree, mid_of, leaf_of, has_leaf, entry_of, px_small, mid_role, leaf_role,
}
use gem_os_extension.Vm.Link.{used_role, entry_of_same}

-- The entry by its three indices.
abbrev through : (ℕ → ℕ) → ℕ → ℕ → ℕ → ℕ → ℕ
through mem pt i j n =
    if is_valid (mem (pt + 8 * i)) && is_valid (mem (pte2pa (mem (pt + 8 * i)) + 8 * j))
    then mem (pte2pa (mem (pte2pa (mem (pt + 8 * i)) + 8 * j)) + 8 * n)
    else 0

word_apart :
    (l r i j : ℕ)
    → l % 4096 ≡ 0
    → r % 4096 ≡ 0
    → i < 512
    → j < 512
    → (l ≢ r) ⊎ (j ≢ i)
    → l + 8 * i ≢ r + 8 * j
word_apart l r i j l_aligned r_aligned small small_j apart =
    ground (arith, l_aligned, r_aligned, small, small_j, apart)

-- Addresses of one page have the same entry.
pub same_entry :
    (mem : ℕ → ℕ) (pt va va1 : ℕ)
    → va / 4096 ≡ va1 / 4096
    → entry_of mem pt va ≡ entry_of mem pt va1
same_entry mem pt va va1 page =
    let top : px 2 va ≡ px 2 va1 = omega (arith, page) in
    let mid : px 1 va ≡ px 1 va1 = omega (arith, page) in
    let low : px 0 va ≡ px 0 va1 = omega (arith, page) in
    ap (λ i. through mem pt i (px 1 va) (px 0 va)) top
    ∙ ap (λ i. through mem pt (px 2 va1) i (px 0 va)) mid
    ∙ ap (λ i. through mem pt (px 2 va1) (px 1 va1) i) low

pages_apart :
    (va va1 : ℕ)
    → va < maxva
    → va1 < maxva
    → va1 / 4096 ≢ va / 4096
    → px 0 va1 ≡ px 0 va
    → 514 + 512 * px 2 va1 + px 1 va1 ≢ 514 + 512 * px 2 va + px 1 va
pages_apart va va1 low low1 other same codes =
    let small = px_small 1 va in
    let small1 = px_small 1 va1 in
    let top : px 2 va1 ≡ px 2 va = omega (arith, small, small1, codes) in
    let mid : px 1 va1 ≡ px 1 va = omega (arith, small, small1, codes) in
    other (omega (arith, low, low1, same, top, mid))

module _ (mem : ℕ → ℕ) (pt : ℕ) (role : Roles) (va w : ℕ) where
  abbrev pub stored : ℕ → ℕ
  stored = update mem (entry_at (leaf_of mem pt va) 0 va) w

  -- A word of another table, or another word of the table, stays.
  stored_other :
      (r i : ℕ)
      → IsTree mem pt role
      → has_leaf mem pt va ≡ true
      → role r ≢ 0
      → i < 512
      → (role r ≢ 514 + 512 * px 2 va + px 1 va) ⊎ (i ≢ px 0 va)
      → stored (r + 8 * i) ≡ mem (r + 8 * i)
  stored_other r i h has table small off =
      let l = leaf_of mem pt va in
      let leaf = leaf_role mem pt role va h has in
      let l_aligned =
        h.aligned l (used_role (role l) (514 + 512 * px 2 va + px 1 va) leaf (ground arith)) in
      let r_aligned = h.aligned r table in
      let low : px 0 va < 512 = px_small 0 va in
      let apart : (l ≢ r) ⊎ (i ≢ px 0 va) = elim off [
        | inl other ↦ inl (λ e. other (sym (ap role e) ∙ leaf))
        | inr other ↦ inr other
      ] in
      let slot : l + 8 * px 0 va ≢ r + 8 * i =
        word_apart l r (px 0 va) i l_aligned r_aligned low small apart in
      update_other mem (l + 8 * px 0 va) w (r + 8 * i) slot

  stored_mid :
      (r i n : ℕ)
      → IsTree mem pt role
      → has_leaf mem pt va ≡ true
      → role r ≡ n
      → n ≢ 0
      → n < 514
      → i < 512
      → stored (r + 8 * i) ≡ mem (r + 8 * i)
  stored_mid r i n h has at given upper small =
      stored_other r i h has (used_role (role r) n at given) small (inl (ground (arith, at, upper)))

  pub stored-IsTree : IsTree mem pt role → has_leaf mem pt va ≡ true → IsTree stored pt role
  stored-IsTree h has = record {
    root = h.root;
    mids = λ i small valid.
        let same = stored_mid pt i 1 h has h.root (ground arith) (ground arith) small in
        ap (λ x. role (pte2pa x)) same ∙ h.mids i small (sym (ap is_valid same) ∙ valid);
    leaves = λ p i j small_i small_j mid valid.
        let same =
          stored_mid p j (2 + i) h has mid (ground arith) (ground (arith, small_i)) small_j in
        ap (λ x. role (pte2pa x)) same
        ∙ h.leaves p i j small_i small_j mid (sym (ap is_valid same) ∙ valid);
    aligned = h.aligned;
  }

  -- The words on the way to an address.
  stored_root :
      (va1 : ℕ)
      → IsTree mem pt role
      → has_leaf mem pt va ≡ true
      → stored (entry_at pt 2 va1) ≡ mem (entry_at pt 2 va1)
  stored_root va1 h has =
      stored_mid pt (px 2 va1) 1 h has h.root (ground arith) (ground arith) (px_small 2 va1)

  stored_below :
      (va1 : ℕ)
      → IsTree mem pt role
      → has_leaf mem pt va ≡ true
      → is_valid (mem (entry_at pt 2 va1)) ≡ true
      → stored (entry_at (mid_of mem pt va1) 1 va1) ≡ mem (entry_at (mid_of mem pt va1) 1 va1)
  stored_below va1 h has valid =
      stored_mid (mid_of mem pt va1) (px 1 va1) (2 + px 2 va1) h has
        (mid_role mem pt role va1 h valid) (ground arith) (omega (arith, px_small 2 va1))
        (px_small 1 va1)

  -- The entry of another page stays.
  pub stored_entry_other :
      (va1 : ℕ)
      → IsTree mem pt role
      → has_leaf mem pt va ≡ true
      → va < maxva
      → va1 < maxva
      → va1 / 4096 ≢ va / 4096
      → entry_of stored pt va1 ≡ entry_of mem pt va1
  stored_entry_other va1 h has low low1 other =
      entry_of_same mem stored pt va1 (stored_root va1 h has) (stored_below va1 h has) (λ has1.
        let leaf1 = leaf_role mem pt role va1 h has1 in
        let l1 = leaf_of mem pt va1 in
        stored_other l1 (px 0 va1) h has
          (used_role (role l1) (514 + 512 * px 2 va1 + px 1 va1) leaf1 (ground arith))
          (px_small 0 va1)
          (elim (Bool-cases (px 0 va1 == px 0 va)) [
            | inr apart ↦ inr (ground (arith, apart))
            | inl same ↦ inl (λ e.
                let codes : 514 + 512 * px 2 va1 + px 1 va1 ≡ 514 + 512 * px 2 va + px 1 va =
                  sym leaf1 ∙ e in
                pages_apart va va1 low low1 other (ground (arith, same)) codes)
          ]))

  -- The tables on the way stay.
  pub stored_has :
      IsTree mem pt role
      → has_leaf mem pt va ≡ true
      → (has_leaf stored pt va ≡ true) × (leaf_of stored pt va ≡ leaf_of mem pt va)
  stored_has h has =
      let valid : is_valid (mem (entry_at pt 2 va)) ≡ true = ground (arith, has) in
      let root = stored_root va h has in
      let mid : mid_of stored pt va ≡ mid_of mem pt va = ap pte2pa root in
      let below : stored (entry_at (mid_of stored pt va) 1 va)
          ≡ mem (entry_at (mid_of mem pt va) 1 va) =
        ap (λ x. stored (entry_at x 1 va)) mid ∙ stored_below va h has valid in
      (ground (arith, root, below, has), ap pte2pa below)

  pub stored_entry : IsTree mem pt role → has_leaf mem pt va ≡ true → entry_of stored pt va ≡ w
  stored_entry h has =
      let (has1, leaf) = stored_has h has in
      let word : stored (entry_at (leaf_of stored pt va) 0 va) ≡ w =
        ap (λ x. stored (entry_at x 0 va)) leaf
        ∙ update_self mem (entry_at (leaf_of mem pt va) 0 va) w in
      ground (arith, has1, word)
