-- ===== src/Fs/Bitmap.antt =====
-- kernel/fs.c: `balloc` and `bfree` on the blocks that the bitmap marks.
use gem_os_extension.Base.{
  ℕ, ◌+◌, ◌%◌, ◌<◌, ◌≤◌, ◌≡◌, ◌≢◌, refl, sym, subst, ap, ◌∙◌, inl, inr, Bool, true, false, not,
  ◌&&◌, Bool-cases, ◌==◌, if◌then◌else◌, update, arith, done,
}
use gem_os_extension.Log.{Log, logblocks, log_write, find_block}
use gem_os_extension.Fs.{Block, Superblock, bpb, bblock, is_clear, set_bit}
use gem_os_extension.Fs.Bits.{IsBytes, set_bit-IsBytes, is_clear-set_bit}

-- The bitmap says that the block is free.
abbrev pub free_in : Superblock → (ℕ → Block) → ℕ → Bool
free_in sb cache b = is_clear (cache (bblock b sb)) (b % bpb)

abbrev pub logged : ℕ → Block → Log Block → Log Block
logged b bytes l =
    let i = find_block l.lh.block b l.lh.n 0 in
    record l {
      cache = update l.cache b bytes;
      lh = record { n = if i == l.lh.n then l.lh.n + 1 else l.lh.n; block = update l.lh.block i b };
    }

-- `log_write` in a transaction that has space.
pub log_write-logged :
    (b : ℕ) (bytes : Block) (l : Log Block)
    → l.lh.n < logblocks
    → 1 ≤ l.outstanding
    → (log_write b bytes l ≡ done (logged b bytes l)) × ((logged b bytes l).lh.n ≤ l.lh.n + 1)
unfolding log_write
log_write-logged b bytes l room begun = (ground (arith, room, begun), ground arith)

-- Each block of the bitmap is bytes; and the bitmap's blocks and block 0 are not free.
pub record IsFs (sb : Superblock) (cache : ℕ → Block) : Type 0 where
  pub bytes : (c : ℕ) → c < sb.size → IsBytes (cache (bblock c sb))
  pub reserved :
      (c : ℕ) → c < sb.size → bblock c sb < sb.size → free_in sb cache (bblock c sb) ≡ false
  pub boot : free_in sb cache 0 ≡ false

-- Of the free blocks the first was taken. It is zeroed and not free any more; every other block is
-- free or not as before, and all but the bitmap's have their contents.
pub record Allocated (sb : Superblock) (old new : ℕ → Block) (b : ℕ) : Type 0 where
  pub below : b < sb.size
  pub was_free : free_in sb old b ≡ true
  pub first : (c : ℕ) → c < b → free_in sb old c ≡ false
  pub taken : free_in sb new b ≡ false
  pub zeroed : new b ≡ λ i. 0
  pub others : (c : ℕ) → c ≢ b → c < sb.size → free_in sb new c ≡ free_in sb old c
  pub rest : (c : ℕ) → c ≢ b → c ≢ bblock b sb → new c ≡ old c
  pub kept : IsFs sb new

and_false : (t : Bool) → t && false ≡ false
and_false true = refl
and_false false = refl

module _ (sb : Superblock) (cache : ℕ → Block) (b : ℕ) where
  abbrev pub marked : ℕ → Block
  marked = update (update cache (bblock b sb) (set_bit (cache (bblock b sb)) (b % bpb))) b (λ i. 0)

  same_index : (c : ℕ) → bblock b sb ≡ bblock c sb → (b % bpb == c % bpb) ≡ (b == c)
  same_index c block = ground (arith, block)

  -- The free block is no block of the bitmap.
  pub not_bitmap :
      (c : ℕ)
      → IsFs sb cache
      → b < sb.size
      → free_in sb cache b ≡ true
      → c < sb.size
      → b ≢ bblock c sb
  not_bitmap c h below free size e =
      let in_size : bblock c sb < sb.size = subst (λ q. q < sb.size) e below in
      let used : free_in sb cache (bblock c sb) ≡ false = h.reserved c size in_size in
      ground (arith, ap (free_in sb cache) e, used, free)

  marked-free_in :
      (c : ℕ)
      → IsFs sb cache
      → b < sb.size
      → free_in sb cache b ≡ true
      → c < sb.size
      → free_in sb marked c ≡ (not (b == c) && free_in sb cache c)
  marked-free_in c h below free size =
      let apart : b ≢ bblock c sb = not_bitmap c h below free size in
      let bytes = h.bytes b below in
      elim (Bool-cases (bblock b sb == bblock c sb)) [
        | inl same_block ↦
            let block : bblock b sb ≡ bblock c sb = ground (arith, same_block) in
            let value : marked (bblock c sb) ≡ set_bit (cache (bblock b sb)) (b % bpb) =
              ground (arith, apart, same_block) in
            ap (λ y. is_clear y (c % bpb)) value
            ∙ is_clear-set_bit (cache (bblock b sb)) (b % bpb) (c % bpb) bytes
            ∙ ap (λ t. not t && is_clear (cache (bblock b sb)) (c % bpb)) (same_index c block)
            ∙ ap (λ q. not (b == c) && is_clear (cache q) (c % bpb)) block
        | inr other_block ↦
            let value : marked (bblock c sb) ≡ cache (bblock c sb) =
              ground (arith, apart, other_block) in
            let differ : (b == c) ≡ false = ground (arith, other_block) in
            ap (λ y. is_clear y (c % bpb)) value
            ∙ ap (λ t. not t && free_in sb cache c) (sym differ)
      ]

  marked-IsFs : IsFs sb cache → b < sb.size → free_in sb cache b ≡ true → IsFs sb marked
  marked-IsFs h below free = record {
    bytes = λ c size i.
        let apart : b ≢ bblock c sb = not_bitmap c h below free size in
        let set = set_bit-IsBytes (cache (bblock b sb)) (b % bpb) (h.bytes b below) i in
        let old = h.bytes c size i in ground (arith, apart, set, old);
    reserved = λ c size inside.
        let old : free_in sb cache (bblock c sb) ≡ false = h.reserved c size inside in
        marked-free_in (bblock c sb) h below free inside
        ∙ ap (λ t. not (b == bblock c sb) && t) old
        ∙ and_false (not (b == bblock c sb));
    boot =
        let size : 0 < sb.size = ground (arith, below) in
        marked-free_in 0 h below free size
        ∙ ap (λ t. not (b == 0) && t) h.boot
        ∙ and_false (not (b == 0));
  }

  pub marked-Allocated :
      IsFs sb cache
      → b < sb.size
      → free_in sb cache b ≡ true
      → ((c : ℕ) → c < b → free_in sb cache c ≡ false)
      → Allocated sb cache marked b
  marked-Allocated h below free first = record {
    below = below;
    was_free = free;
    first = first;
    taken = marked-free_in b h below free below ∙ ground arith;
    zeroed = ground arith;
    others = λ c other size.
        let differ : (b == c) ≡ false = ground (arith, other) in
        marked-free_in c h below free size ∙ ap (λ t. not t && free_in sb cache c) differ;
    rest = λ c other off. ground (arith, other, off);
    kept = marked-IsFs h below free;
  }
