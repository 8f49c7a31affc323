-- ===== src/Fs/Free.antt =====
-- kernel/fs.c: `bfree`, and `balloc` undone by it.
use gem_os_extension.Base.{
  ℕ, ◌%◌, ◌≡◌, ◌≢◌, ◌⊎◌, refl, sym, ap, ◌∙◌, inl, inr, true, false, ◌||◌, Bool-cases, ◌==◌, update,
  arith, done, panic,
}
use gem_os_extension.Log.{Log}
use gem_os_extension.Fs.{Block, Superblock, bpb, bblock, is_clear, clear_bit, bfree}
use gem_os_extension.Fs.Bits.{IsBytes, is_clear-clear_bit}
use gem_os_extension.Fs.Bitmap.{free_in, logged, log_write-logged}
use gem_os_extension.Fs.Alloc.{HasRoom}

module _ (sb : Superblock) (cache : ℕ → Block) (b : ℕ) where
  abbrev cleared : ℕ → Block
  cleared = update cache (bblock b sb) (clear_bit (cache (bblock b sb)) (b % bpb))

  cleared-free_in :
      (c : ℕ)
      → IsBytes (cache (bblock b sb))
      → free_in sb cleared c ≡ (b == c || free_in sb cache c)
  cleared-free_in c bytes = elim (Bool-cases (bblock b sb == bblock c sb)) [
    | inl same_block ↦
        let block : bblock b sb ≡ bblock c sb = ground (arith, same_block) in
        let value : cleared (bblock c sb) ≡ clear_bit (cache (bblock b sb)) (b % bpb) =
          ground (arith, same_block) in
        let index : (b % bpb == c % bpb) ≡ (b == c) = ground (arith, block) in
        ap (λ y. is_clear y (c % bpb)) value
        ∙ is_clear-clear_bit (cache (bblock b sb)) (b % bpb) (c % bpb) bytes
        ∙ ap (λ t. t || is_clear (cache (bblock b sb)) (c % bpb)) index
        ∙ ap (λ q. b == c || is_clear (cache q) (c % bpb)) block
    | inr other_block ↦
        let value : cleared (bblock c sb) ≡ cache (bblock c sb) = ground (arith, other_block) in
        let differ : (b == c) ≡ false = ground (arith, other_block) in
        ap (λ y. is_clear y (c % bpb)) value ∙ ap (λ t. t || free_in sb cache c) (sym differ)
  ]

-- The block is free, every other one free or not as before, and only the one block of the bitmap
-- changes.
pub record Freed (sb : Superblock) (old new : ℕ → Block) (b : ℕ) : Type 0 where
  pub freed : free_in sb new b ≡ true
  pub others : (c : ℕ) → c ≢ b → free_in sb new c ≡ free_in sb old c
  pub rest : (c : ℕ) → c ≢ bblock b sb → new c ≡ old c

-- In a transaction with space in the log, `bfree` panics exactly on a block that is free already; it
-- frees every other one, and leaves all other blocks free or not as they were.
pub bfree-Freed :
    (sb : Superblock) (b : ℕ) (l : Log Block)
    → IsBytes (l.cache (bblock b sb))
    → HasRoom l
    → ((free_in sb l.cache b ≡ true) × (bfree sb b l ≡ panic))
      ⊎ ((free_in sb l.cache b ≡ false)
          × (l' : Log Block) × (bfree sb b l ≡ done l')
          × Freed sb l.cache l'.cache b)
unfolding bfree
bfree-Freed sb b l bytes h = elim (Bool-cases (free_in sb l.cache b)) [
  | inl free ↦ inl (free, rw free refl)
  | inr used ↦
      let new = clear_bit (l.cache (bblock b sb)) (b % bpb) in
      let (write, _) = log_write-logged (bblock b sb) new l (ground (arith, h.room)) h.begun in
      inr (
        used,
        logged (bblock b sb) new l,
        rw used write,
        record {
          freed = cleared-free_in sb l.cache b b bytes ∙ ground arith;
          others = λ c other.
              let differ : (b == c) ≡ false = ground (arith, other) in
              cleared-free_in sb l.cache b c bytes ∙ ap (λ t. t || free_in sb l.cache c) differ;
          rest = λ c other. ground (arith, other);
        },
      )
]
