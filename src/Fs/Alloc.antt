-- ===== src/Fs/Alloc.antt =====
-- kernel/fs.c: what `balloc` and `bfree` do.
use gem_os_extension.Base.{
  ℕ, zero, suc, ◌+◌, ◌-◌, ◌*◌, ◌%◌, ◌<◌, ◌≤◌, ◌≡◌, ◌≢◌, ◌⊎◌, refl, sym, subst, ap, ◌∙◌, inl, inr,
  Bool, true, false, Bool-cases, Option-cases, ltb, arith, Outcome, done, ◌>>=◌,
}
use gem_os_extension.Log.{Log, logblocks, log_write}
use gem_os_extension.Fs.{
  Block, Superblock, bpb, bblock, is_clear, set_bit, bzero, find_clear, balloc_from, balloc,
}
use gem_os_extension.Fs.Search.{find_clear-some, find_clear-before, find_clear-none}
use gem_os_extension.Fs.Bitmap.{
  free_in, logged, log_write-logged, IsFs, Allocated, marked-Allocated,
}
use mathlib.Core.Path.{ap₂}

-- A transaction that has begun, and space in the log for two blocks.
pub record HasRoom (l : Log Block) : Type 0 where
  pub begun : 1 ≤ l.outstanding
  pub room : l.lh.n + 2 ≤ logblocks

abbrev grant : Log Block → ℕ → ℕ → ℕ → Outcome (ℕ × Log Block)
grant l block bi a =
    log_write block (set_bit (l.cache block) bi) l >>= λ l1. bzero a l1 >>= λ l2. done (a, l2)

abbrev granted : Superblock → Log Block → ℕ → Log Block
granted sb l a =
    logged a (λ i. 0) (logged (bblock a sb) (set_bit (l.cache (bblock a sb)) (a % bpb)) l)

grant-granted :
    (sb : Superblock) (l : Log Block) (a : ℕ)
    → HasRoom l
    → grant l (bblock a sb) (a % bpb) a ≡ done (a, granted sb l a)
unfolding bzero
grant-granted sb l a h =
    let bytes = set_bit (l.cache (bblock a sb)) (a % bpb) in
    let (first, grows) = log_write-logged (bblock a sb) bytes l (ground (arith, h.room)) h.begun in
    let (second, _) =
      log_write-logged a (λ i. 0) (logged (bblock a sb) bytes l) (ground (arith, grows, h.room))
        h.begun in
    ap (λ o. o >>= λ l1. log_write a (λ i. 0) l1 >>= λ l2. done (a, l2)) first
    ∙ ap (λ o. o >>= λ l2. done (a, l2)) second

-- The transaction goes on, with at most `blocks` more in the log.
pub record Grown (blocks : ℕ) (l l' : Log Block) : Type 0 where
  pub outstanding : l'.outstanding ≡ l.outstanding
  pub more : l'.lh.n ≤ l.lh.n + blocks

granted-Grown : (sb : Superblock) (l : Log Block) (a : ℕ) → HasRoom l → Grown 2 l (granted sb l a)
granted-Grown sb l a h = record { outstanding = refl; more = ground arith }

-- No block is free.
pub record IsFull (sb : Superblock) (cache : ℕ → Block) : Type 0 where
  pub used : (c : ℕ) → c < sb.size → free_in sb cache c ≡ false

abbrev pub Balloc : Superblock → Log Block → Outcome (ℕ × Log Block) → Type 0
Balloc sb l o =
    ((o ≡ done (0, l)) × IsFull sb l.cache)
    ⊎ ((b : ℕ) × (l' : Log Block) × (o ≡ done (b, l'))
        × (b ≢ 0)
        × Allocated sb l.cache l'.cache b
        × Grown 2 l l')

-- The bits of a block of the bitmap are those of the blocks from q * 8192 on.
bit_block : (sb : Superblock) (q bi : ℕ) → bi < bpb → bblock (q * bpb) sb ≡ bblock (q * bpb + bi) sb
bit_block sb q bi below = ground (arith, below)

bit_index : (q bi : ℕ) → bi < bpb → bi ≡ (q * bpb + bi) % bpb
bit_index q bi below = ground (arith, below)

bit_free :
    (sb : Superblock) (cache : ℕ → Block) (q bi : ℕ)
    → bi < bpb
    → is_clear (cache (bblock (q * bpb) sb)) bi ≡ free_in sb cache (q * bpb + bi)
bit_free sb cache q bi below =
    ap₂ (λ block i. is_clear (cache block) i) (bit_block sb q bi below) (bit_index q bi below)

none_before :
    (sb : Superblock) (cache : ℕ → Block) (q bi : ℕ) (limit : ℕ)
    → bi ≤ bpb
    → ((c : ℕ) → c < q * bpb → c < limit → free_in sb cache c ≡ false)
    → ((k : ℕ) → k < bi → q * bpb + k < limit → is_clear (cache (bblock (q * bpb) sb)) k ≡ false)
    → (c : ℕ) → c < q * bpb + bi
    → c < limit
    → free_in sb cache c ≡ false
none_before sb cache q bi limit few before used c low size = elim (Bool-cases (ltb c (q * bpb))) [
  | inl earlier ↦ before c (ground (arith, earlier)) size
  | inr here ↦
      let k = c - q * bpb in
      let at : q * bpb + k ≡ c = ground (arith, here) in
      let below : k < bi = ground (arith, low, here) in
      ap (free_in sb cache) (sym at)
      ∙ sym (bit_free sb cache q k (ground (arith, below, few)))
      ∙ used k below (ground (arith, at, size))
]

true≢false : (a : Bool) → a ≡ true → a ≢ false
true≢false a e f = ground (arith, e, f)

balloc_from-Balloc :
    (sb : Superblock) (fuel q : ℕ) (l : Log Block)
    → IsFs sb l.cache
    → HasRoom l
    → sb.size - q * bpb < fuel
    → ((c : ℕ) → c < q * bpb → c < sb.size → free_in sb l.cache c ≡ false)
    → Balloc sb l (balloc_from sb fuel (q * bpb) l)
unfolding balloc_from
balloc_from-Balloc sb zero q l h room enough before = absurd (ground (arith, enough))
balloc_from-Balloc sb (suc fuel) q l h room enough before =
    let bytes = l.cache (bblock (q * bpb) sb) in
    elim (Bool-cases (ltb (q * bpb) sb.size)) [
      | inr end ↦ inl (
        ground (arith, end),
        record { used = λ c size. before c (ground (arith, end, size)) size },
      )
      | inl more ↦ elim (Option-cases (find_clear sb bytes (q * bpb) bpb 0)) [
        | inl missing ↦
            let next : balloc_from sb (suc fuel) (q * bpb) l ≡ balloc_from sb fuel (suc q * bpb) l =
              rw (more, missing) (ap (λ b. balloc_from sb fuel b l) (ground arith)) in
            subst (Balloc sb l) (sym next) (
              balloc_from-Balloc sb fuel (suc q) l h room (ground (arith, enough, more))
                (λ c low size.
                  none_before sb l.cache q bpb sb.size (ground arith) before
                    (λ k small inside.
                      find_clear-none sb bytes (q * bpb) bpb 0 missing k (ground arith)
                        (ground (arith, small)) inside)
                    c (ground (arith, low)) size))
        | inr (bi, hit) ↦
            let (_, below, size, clear) = find_clear-some sb bytes (q * bpb) bpb 0 bi hit in
            let a = q * bpb + bi in
            let at : balloc_from sb (suc fuel) (q * bpb) l ≡ grant l (bblock (q * bpb) sb) bi a =
              rw (more, hit) refl in
            let free : free_in sb l.cache a ≡ true =
              sym (bit_free sb l.cache q bi (ground (arith, below))) ∙ clear in
            let first : (c : ℕ) → c < a → free_in sb l.cache c ≡ false = λ c low.
              none_before sb l.cache q bi sb.size (ground (arith, below)) before
                (λ k small inside.
                  find_clear-before sb bytes (q * bpb) bpb 0 bi hit k (ground arith) small)
                c low (ground (arith, low, size)) in
            inr (
              a,
              granted sb l a,
              at
                  ∙ ap₂ (λ block i. grant l block i a) (bit_block sb q bi (ground (arith, below)))
                      (bit_index q bi (ground (arith, below)))
                  ∙ grant-granted sb l a room,
              (λ e. true≢false (free_in sb l.cache a) free (ap (free_in sb l.cache) e ∙ h.boot)),
              marked-Allocated sb l.cache a h size free first,
              granted-Grown sb l a room,
            )
      ]
    ]

-- In a transaction with space for two blocks in the log, on a bitmap that marks its own blocks and
-- block 0 as used, `balloc` ends: it returns 0 and changes nothing exactly when no block is free, and
-- else the first free block, zeroed and marked as used, where every other block stays free or used
-- as it was and keeps its contents, but for the one block of the bitmap.
pub balloc-Balloc :
    (sb : Superblock) (l : Log Block) → IsFs sb l.cache → HasRoom l → Balloc sb l (balloc sb l)
unfolding balloc
balloc-Balloc sb l h room =
    balloc_from-Balloc sb (sb.size + 1) 0 l h room (ground arith)
      (λ c low size. absurd (ground (arith, low)))
