-- ===== src/Inode/Mapping.antt =====
-- kernel/fs.c: `bmap` against the map from a file's block numbers to the disk's.
use gem_os_extension.Base.{
  ℕ, ◌-◌, ◌<◌, ◌≡◌, ◌≢◌, ◌⊎◌, refl, ap, ◌∙◌, inl, inr, Bool, true, false, ltb, ◌==◌, if◌then◌else◌,
  update, arith,
}
use gem_os_extension.Log.{Log}
use gem_os_extension.Fs.{Block, Superblock, bblock}
use gem_os_extension.Fs.Bitmap.{free_in, Allocated}
use gem_os_extension.Fs.Alloc.{IsFull}
use gem_os_extension.Inode.{ndirect, word_at, Mapped}

-- The disk's block of a file's block, 0 for none.
abbrev pub lookup : (ℕ → ℕ) → (ℕ → Block) → ℕ → ℕ
lookup addrs cache bn =
    if ltb bn ndirect
    then addrs bn
    else if addrs ndirect == 0
    then 0
    else word_at (cache (addrs ndirect)) (bn - ndirect)

-- A block that may serve as indirect block: in use, and none of the bitmap's.
pub record IsIndirect (sb : Superblock) (cache : ℕ → Block) (b : ℕ) : Type 0 where
  pub below : b < sb.size
  pub used : free_in sb cache b ≡ false
  pub apart : (c : ℕ) → c < sb.size → b ≢ bblock c sb

-- What `bmap` did: its answer is 0 only on a full disk; its answer is the block's place from now
-- on; all other places are as they were; and a place that is new is a block that was free and is
-- not any more.
pub record IsMapped (sb : Superblock) (addrs : ℕ → ℕ) (cache : ℕ → Block) (bn : ℕ) (m : Mapped)
    : Type 0 where
  pub full : (m.addr ≢ 0) ⊎ IsFull sb m.log.cache
  pub found : lookup m.addrs m.log.cache bn ≡ m.addr
  pub others : (j : ℕ) → j ≢ bn → lookup m.addrs m.log.cache j ≡ lookup addrs cache j
  pub fresh :
      (lookup addrs cache bn ≡ m.addr)
      ⊎ ((lookup addrs cache bn ≡ 0)
          × (m.addr ≢ 0)
          × (m.addr < sb.size)
          × (free_in sb cache m.addr ≡ true)
          × (free_in sb m.log.cache m.addr ≡ false))

pub nothing-IsMapped :
    (sb : Superblock) (addrs : ℕ → ℕ) (bn : ℕ) (l : Log Block) (a : ℕ)
    → (a ≢ 0) ⊎ IsFull sb l.cache
    → lookup addrs l.cache bn ≡ a
    → IsMapped sb addrs l.cache bn (record { addr = a; addrs = addrs; log = l })
nothing-IsMapped sb addrs bn l a full e = record {
  full = full;
  found = e;
  others = λ j other. refl;
  fresh = inl e;
}

pub used_free : (t : Bool) → t ≡ false → t ≢ true
used_free t e f = ground (arith, e, f)

-- An indirect block stays what it is when another block is allocated.
pub Allocated-keeps :
    (sb : Superblock) (old new : ℕ → Block) (a b : ℕ)
    → Allocated sb old new a
    → IsIndirect sb old b
    → (new b ≡ old b) × (b ≢ a) × IsIndirect sb new b
Allocated-keeps sb old new a b h i =
    let other : b ≢ a =
      λ e. used_free (free_in sb old b) i.used (ap (free_in sb old) e ∙ h.was_free) in
    (
      h.rest b other (i.apart a h.below),
      other,
      record { below = i.below; used = h.others b other i.below ∙ i.used; apart = i.apart },
    )

pub direct-IsMapped :
    (sb : Superblock) (addrs : ℕ → ℕ) (bn a : ℕ) (l l1 : Log Block)
    → bn < ndirect
    → addrs bn ≡ 0
    → (addrs ndirect ≡ 0) ⊎ IsIndirect sb l.cache (addrs ndirect)
    → a ≢ 0
    → Allocated sb l.cache l1.cache a
    → IsMapped sb addrs l.cache bn (record { addr = a; addrs = update addrs bn a; log = l1 })
direct-IsMapped sb addrs bn a l l1 small empty ind nonzero h = record {
  full = inl nonzero;
  found = ground (arith, small);
  others = λ j other. elim ind [
    | inl missing ↦ ground (arith, small, other, missing)
    | inr i ↦
        let kept = (Allocated-keeps sb l.cache l1.cache a (addrs ndirect) h i).0 in
        let word : word_at (l1.cache (addrs ndirect)) (j - ndirect)
            ≡ word_at (l.cache (addrs ndirect)) (j - ndirect) =
          ap (λ y. word_at y (j - ndirect)) kept in
        ground (arith, small, other, word)
  ];
  fresh = inr (ground (arith, small, empty), nonzero, h.below, h.was_free, h.taken);
}
