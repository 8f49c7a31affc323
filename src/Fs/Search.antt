-- ===== src/Fs/Search.antt =====
-- kernel/fs.c: the search for a clear bit in a block of the bitmap.
use gem_os_extension.Base.{
  ℕ, zero, suc, ◌+◌, ◌<◌, ◌≤◌, ◌≡◌, sym, ap, ◌∙◌, inl, inr, true, false, Bool-cases, none, some,
  ◌==◌, ltb, arith,
}
use gem_os_extension.Fs.{Block, Superblock, is_clear, find_clear}

-- The first free bit of a block of the bitmap, and that none is free.
pub find_clear-some :
    (sb : Superblock) (bytes : Block) (b m bi bj : ℕ)
    → find_clear sb bytes b m bi ≡ some bj
    → (bi ≤ bj) × (bj < bi + m) × (b + bj < sb.size) × (is_clear bytes bj ≡ true)
unfolding find_clear
find_clear-some sb bytes b zero bi bj e = absurd (ground (arith, e))
find_clear-some sb bytes b (suc m) bi bj e = elim (Bool-cases (ltb (b + bi) sb.size)) [
  | inl inside ↦ elim (Bool-cases (is_clear bytes bi)) [
    | inl free ↦
        let here : bi ≡ bj = ground (arith, e, inside, free) in
        (
          ground (arith, here),
          ground (arith, here),
          ground (arith, here, inside),
          ap (is_clear bytes) (sym here) ∙ free,
        )
    | inr used ↦
        let (low, high, size, free) =
          find_clear-some sb bytes b m (bi + 1) bj (ground (arith, e, inside, used)) in
        (ground (arith, low), ground (arith, high), size, free)
  ]
  | inr outside ↦ absurd (ground (arith, e, outside))
]

pub find_clear-before :
    (sb : Superblock) (bytes : Block) (b m bi bj : ℕ)
    → find_clear sb bytes b m bi ≡ some bj
    → (k : ℕ) → bi ≤ k
    → k < bj
    → is_clear bytes k ≡ false
unfolding find_clear
find_clear-before sb bytes b zero bi bj e k low high = absurd (ground (arith, e))
find_clear-before sb bytes b (suc m) bi bj e k low high = elim (Bool-cases (ltb (b + bi) sb.size)) [
  | inl inside ↦ elim (Bool-cases (is_clear bytes bi)) [
    | inl free ↦ absurd (ground (arith, e, inside, free, low, high))
    | inr used ↦ elim (Bool-cases (bi == k)) [
      | inl here ↦ let at : k ≡ bi = ground (arith, here) in ap (is_clear bytes) at ∙ used
      | inr later ↦
          find_clear-before sb bytes b m (bi + 1) bj (ground (arith, e, inside, used)) k
            (ground (arith, low, later)) high
    ]
  ]
  | inr outside ↦ absurd (ground (arith, e, outside))
]

pub find_clear-none :
    (sb : Superblock) (bytes : Block) (b m bi : ℕ)
    → find_clear sb bytes b m bi ≡ none
    → (k : ℕ) → bi ≤ k
    → k < bi + m
    → b + k < sb.size
    → is_clear bytes k ≡ false
unfolding find_clear
find_clear-none sb bytes b zero bi e k low high size = absurd (ground (arith, low, high))
find_clear-none sb bytes b (suc m) bi e k low high size = elim (Bool-cases (ltb (b + bi) sb.size)) [
  | inl inside ↦ elim (Bool-cases (is_clear bytes bi)) [
    | inl free ↦ absurd (ground (arith, e, inside, free))
    | inr used ↦ elim (Bool-cases (bi == k)) [
      | inl here ↦ let at : k ≡ bi = ground (arith, here) in ap (is_clear bytes) at ∙ used
      | inr later ↦
          find_clear-none sb bytes b m (bi + 1) (ground (arith, e, inside, used)) k
            (ground (arith, low, later)) (ground (arith, high)) size
    ]
  ]
  | inr outside ↦ absurd (ground (arith, outside, low, size))
]
