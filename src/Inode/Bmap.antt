-- ===== src/Inode/Bmap.antt =====
-- kernel/fs.c: `bmap`, over `balloc` and the log.
use gem_os_extension.Base.{
  ℕ, ◌+◌, ◌-◌, ◌%◌, ◌<◌, ◌≤◌, ◌≡◌, ◌≢◌, ◌⊎◌, refl, sym, ap, ◌∙◌, inl, inr, true, false, Bool-cases,
  ltb, ◌==◌, update, done, arith,
}
use gem_os_extension.Log.{Log, logblocks}
use gem_os_extension.Fs.{Block, Superblock, bblock, bpb, is_clear}
use gem_os_extension.Fs.Bitmap.{free_in, IsFs, Allocated, not_bitmap, log_write-logged, logged}
use gem_os_extension.Fs.Alloc.{HasRoom, balloc-Balloc}
use gem_os_extension.Inode.{ndirect, nindirect, word_at, put_word, Mapped, slot, indirect, bmap}
use gem_os_extension.Inode.Words.{word_at-put_word, word_at-put_other, word_at-zero}
use gem_os_extension.Inode.Mapping.{
  lookup, IsIndirect, IsMapped, nothing-IsMapped, Allocated-keeps, direct-IsMapped, used_free,
}

-- A transaction that has begun, with space in the log for so many blocks.
pub record HasSpace (blocks : ℕ) (l : Log Block) : Type 0 where
  pub begun : 1 ≤ l.outstanding
  pub space : l.lh.n + blocks ≤ logblocks

module _ (sb : Superblock) (addrs : ℕ → ℕ) (b bn a : ℕ) where
  abbrev stored : Log Block → Log Block
  stored l = logged b (put_word (l.cache b) (bn - ndirect) a) l

  stored-IsMapped :
      (l l1 : Log Block)
      → ndirect ≤ bn
      → addrs ndirect ≡ b
      → b ≢ 0
      → a ≢ 0
      → sb.size ≤ 4294967296
      → IsIndirect sb l.cache b
      → word_at (l.cache b) (bn - ndirect) ≡ 0
      → Allocated sb l.cache l1.cache a
      → IsMapped sb addrs l.cache bn (record { addr = a; addrs = addrs; log = stored l1 })
  stored-IsMapped l l1 large at nonzero given words i empty h =
      let (kept, _, i1) = Allocated-keeps sb l.cache l1.cache a b h i in
      let small : a < 4294967296 = omega (arith, h.below, words) in
      let block : update l1.cache b (put_word (l1.cache b) (bn - ndirect) a) (addrs ndirect)
          ≡ put_word (l1.cache b) (bn - ndirect) a =
        ground (arith, at) in
      let old : l.cache (addrs ndirect) ≡ l.cache b = ap l.cache at in
      record {
        full = inl given;
        found =
            let word = ap (λ y. word_at y (bn - ndirect)) block in
            let value = word_at-put_word (l1.cache b) (bn - ndirect) a small in
            ground (arith, large, at, nonzero, word, value);
        others = λ j other. elim (Bool-cases (ltb j ndirect)) [
          | inl direct ↦ ground (arith, direct)
          | inr below ↦
              let word = ap (λ y. word_at y (j - ndirect)) block in
              let apart : bn - ndirect ≢ j - ndirect = ground (arith, large, below, other) in
              let value = word_at-put_other (l1.cache b) (bn - ndirect) (j - ndirect) a apart in
              let before = ap (λ y. word_at y (j - ndirect)) (kept ∙ sym old) in
              ground (arith, below, at, nonzero, word, value, before)
        ];
        fresh =
            let before = ap (λ y. word_at y (bn - ndirect)) old ∙ empty in
            let elsewhere : b ≢ bblock a sb = i.apart a h.below in
            let same : update l1.cache b (put_word (l1.cache b) (bn - ndirect) a) (bblock a sb)
                ≡ l1.cache (bblock a sb) =
              ground (arith, elsewhere) in
            inr (
              ground (arith, large, at, nonzero, before),
              given,
              h.below,
              h.was_free,
              ap (λ y. is_clear y (a % bpb)) same ∙ h.taken,
            );
      }

indirect-IsMapped :
    (sb : Superblock) (addrs : ℕ → ℕ) (b bn : ℕ) (l : Log Block)
    → ndirect ≤ bn
    → addrs ndirect ≡ b
    → b ≢ 0
    → sb.size ≤ 4294967296
    → IsFs sb l.cache
    → HasSpace 3 l
    → IsIndirect sb l.cache b
    → (m : Mapped) × (indirect sb (bn - ndirect) (record { addr = b; addrs = addrs; log = l })
        ≡ done m)
      × IsMapped sb addrs l.cache bn m
unfolding indirect
indirect-IsMapped sb addrs b bn l large at nonzero words fs h i =
    let w = word_at (l.cache b) (bn - ndirect) in
    let old : l.cache (addrs ndirect) ≡ l.cache b = ap l.cache at in
    let word = ap (λ y. word_at y (bn - ndirect)) old in
    let place : lookup addrs l.cache bn ≡ w = ground (arith, large, at, nonzero, word) in
    elim (Bool-cases (w == 0)) [
      | inr there ↦ (
        record { addr = w; addrs = addrs; log = l },
        rw there refl,
        nothing-IsMapped sb addrs bn l w (inl (ground (arith, there))) place,
      )
      | inl missing ↦
          let empty : w ≡ 0 = ground (arith, missing) in
          let room : HasRoom l = record { begun = h.begun; room = omega (arith, h.space) } in
          elim (balloc-Balloc sb l fs room) [
            | inl (e, full) ↦ (
              record { addr = 0; addrs = addrs; log = l },
              rw (missing, e) refl,
              nothing-IsMapped sb addrs bn l 0 (inr full) (place ∙ empty),
            )
            | inr (a, l1, e, given, alloc, grown) ↦
                let is_given : a == 0 ≡ false = ground (arith, given) in
                let (write, _) =
                  log_write-logged b (put_word (l1.cache b) (bn - ndirect) a) l1
                    (omega (arith, grown.more, h.space))
                    (omega (arith, grown.outstanding, h.begun)) in
                (
                  record { addr = a; addrs = addrs; log = stored sb addrs b bn a l1 },
                  rw (missing, e) (rw is_given (rw write refl)),
                  stored-IsMapped sb addrs b bn a l l1 large at nonzero given words i empty alloc,
                )
          ]
    ]

rebase-IsMapped :
    (sb : Superblock) (addrs addrs1 : ℕ → ℕ) (c c1 : ℕ → Block) (bn : ℕ) (m : Mapped)
    → ((j : ℕ) → lookup addrs1 c1 j ≡ lookup addrs c j)
    → ((a : ℕ) → a < sb.size → free_in sb c1 a ≡ true → free_in sb c a ≡ true)
    → IsMapped sb addrs1 c1 bn m
    → IsMapped sb addrs c bn m
rebase-IsMapped sb addrs addrs1 c c1 bn m same free h = record {
  full = h.full;
  found = h.found;
  others = λ j other. h.others j other ∙ same j;
  fresh = elim h.fresh [
    | inl old ↦ inl (sym (same bn) ∙ old)
    | inr (missing, given, below, was_free, taken) ↦
        inr (sym (same bn) ∙ missing, given, below, free m.addr below was_free, taken)
  ];
}

-- A new indirect block is empty, so that no place changes.
empty_indirect :
    (sb : Superblock) (addrs : ℕ → ℕ) (old new : ℕ → Block) (a j : ℕ)
    → addrs ndirect ≡ 0
    → Allocated sb old new a
    → lookup (update addrs ndirect a) new j ≡ lookup addrs old j
empty_indirect sb addrs old new a j missing h =
    let at : update addrs ndirect a ndirect ≡ a = ground arith in
    let block : new (update addrs ndirect a ndirect) ≡ λ i. 0 = ap new at ∙ h.zeroed in
    let word = ap (λ y. word_at y (j - ndirect)) block ∙ word_at-zero (j - ndirect) in
    ground (arith, missing, word)

Allocated-free :
    (sb : Superblock) (old new : ℕ → Block) (a b : ℕ)
    → Allocated sb old new a
    → b < sb.size
    → free_in sb new b ≡ true
    → free_in sb old b ≡ true
Allocated-free sb old new a b h below free =
    let other : b ≢ a = λ e. used_free (free_in sb new b) (ap (free_in sb new) e ∙ h.taken) free in
    sym (h.others b other below) ∙ free

bmap-direct :
    (sb : Superblock) (addrs : ℕ → ℕ) (bn : ℕ) (l : Log Block)
    → ltb bn ndirect ≡ true
    → IsFs sb l.cache
    → HasRoom l
    → (addrs ndirect ≡ 0) ⊎ IsIndirect sb l.cache (addrs ndirect)
    → (m : Mapped) × (bmap sb addrs bn l ≡ done m) × IsMapped sb addrs l.cache bn m
unfolding bmap slot
bmap-direct sb addrs bn l small fs room ind = elim (Bool-cases (addrs bn == 0)) [
  | inr there ↦ (
    record { addr = addrs bn; addrs = addrs; log = l },
    rw (small, there) refl,
    nothing-IsMapped sb addrs bn l (addrs bn) (inl (ground (arith, there))) (ground (arith, small)),
  )
  | inl missing ↦ elim (balloc-Balloc sb l fs room) [
    | inl (e, full) ↦ (
      record { addr = 0; addrs = addrs; log = l },
      rw (small, missing, e) refl,
      nothing-IsMapped sb addrs bn l 0 (inr full) (ground (arith, small, missing)),
    )
    | inr (a, l1, e, given, alloc, grown) ↦
        let is_given : a == 0 ≡ false = ground (arith, given) in
        (
          record { addr = a; addrs = update addrs bn a; log = l1 },
          rw (small, missing, e) (rw is_given refl),
          direct-IsMapped sb addrs bn a l l1 (ground (arith, small)) (ground (arith, missing)) ind
              given alloc,
        )
  ]
]

-- The first block behind the direct ones, with a new indirect block.
new_indirect-IsMapped :
    (sb : Superblock) (addrs : ℕ → ℕ) (a bn : ℕ) (l l1 : Log Block)
    → ndirect ≤ bn
    → addrs ndirect ≡ 0
    → a ≢ 0
    → sb.size ≤ 4294967296
    → IsFs sb l.cache
    → HasSpace 3 l1
    → Allocated sb l.cache l1.cache a
    → (m : Mapped) × (indirect sb
          (bn - ndirect)
          (record { addr = a; addrs = update addrs ndirect a; log = l1 })
        ≡ done m)
      × IsMapped sb addrs l.cache bn m
new_indirect-IsMapped sb addrs a bn l l1 low none_yet given words fs space alloc =
    let i : IsIndirect sb l1.cache a = record {
      below = alloc.below;
      used = alloc.taken;
      apart = λ c size. not_bitmap sb l.cache a c fs alloc.below alloc.was_free size;
    } in
    let at : update addrs ndirect a ndirect ≡ a = ground arith in
    let (m, e, mapped) =
      indirect-IsMapped sb (update addrs ndirect a) a bn l1 low at given words alloc.kept space i in
    (
      m,
      e,
      rebase-IsMapped sb addrs (update addrs ndirect a) l.cache l1.cache bn m
          (λ j. empty_indirect sb addrs l.cache l1.cache a j none_yet alloc)
          (λ b below. Allocated-free sb l.cache l1.cache a b alloc below) mapped,
    )

bmap-indirect :
    (sb : Superblock) (addrs : ℕ → ℕ) (bn : ℕ) (l : Log Block)
    → ltb bn ndirect ≡ false
    → ltb (bn - ndirect) nindirect ≡ true
    → ndirect ≤ bn
    → sb.size ≤ 4294967296
    → IsFs sb l.cache
    → HasSpace 5 l
    → (addrs ndirect ≡ 0) ⊎ IsIndirect sb l.cache (addrs ndirect)
    → (m : Mapped) × (bmap sb addrs bn l ≡ done m) × IsMapped sb addrs l.cache bn m
unfolding bmap slot
bmap-indirect sb addrs bn l large range low words fs h ind =
    elim (Bool-cases (addrs ndirect == 0)) [
      | inr there ↦
          let given : addrs ndirect ≢ 0 = ground (arith, there) in
          let i : IsIndirect sb l.cache (addrs ndirect) = elim ind [
            | inl missing ↦ absurd (given missing)
            | inr i ↦ i
          ] in
          let space : HasSpace 3 l = record { begun = h.begun; space = omega (arith, h.space) } in
          let (m, e, mapped) =
            indirect-IsMapped sb addrs (addrs ndirect) bn l low refl given words fs space i in
          (m, rw (large, range, there) (rw there e), mapped)
      | inl missing ↦
          let none_yet : addrs ndirect ≡ 0 = ground (arith, missing) in
          let room : HasRoom l = record { begun = h.begun; room = omega (arith, h.space) } in
          elim (balloc-Balloc sb l fs room) [
            | inl (e, full) ↦ (
              record { addr = 0; addrs = addrs; log = l },
              rw (large, range, missing, e) refl,
              nothing-IsMapped sb addrs bn l 0 (inr full) (ground (arith, large, missing)),
            )
            | inr (a, l1, e, given, alloc, grown) ↦
                let is_given : a == 0 ≡ false = ground (arith, given) in
                let space : HasSpace 3 l1 = record {
                  begun = omega (arith, grown.outstanding, h.begun);
                  space = omega (arith, grown.more, h.space);
                } in
                let (m, e1, mapped) =
                  new_indirect-IsMapped sb addrs a bn l l1 low none_yet given words fs space
                    alloc in
                (m, rw (large, range, missing, e) (rw is_given (rw is_given e1)), mapped)
          ]
    ]

-- Over a sound bitmap `bmap` ends, and answers 0 only when the disk is full, in a transaction with
-- space for five blocks, for a block below the largest file and an array whose indirect block, if
-- there is one, is in use and is none of the bitmap's. Its answer is the block's place from then on;
-- every other block of the file keeps its place; and a place is as it was before, or a block that was
-- free and is not any more.
pub bmap-IsMapped :
    (sb : Superblock) (addrs : ℕ → ℕ) (bn : ℕ) (l : Log Block)
    → bn < ndirect + nindirect
    → sb.size ≤ 4294967296
    → IsFs sb l.cache
    → HasSpace 5 l
    → (addrs ndirect ≡ 0) ⊎ IsIndirect sb l.cache (addrs ndirect)
    → (m : Mapped) × (bmap sb addrs bn l ≡ done m) × IsMapped sb addrs l.cache bn m
bmap-IsMapped sb addrs bn l inside words fs h ind = elim (Bool-cases (ltb bn ndirect)) [
  | inl small ↦
      let room : HasRoom l = record { begun = h.begun; room = omega (arith, h.space) } in
      bmap-direct sb addrs bn l small fs room ind
  | inr large ↦
      let low : ndirect ≤ bn = ground (arith, large) in
      let range : ltb (bn - ndirect) nindirect ≡ true = ground (arith, inside, low) in
      bmap-indirect sb addrs bn l large range low words fs h ind
]
