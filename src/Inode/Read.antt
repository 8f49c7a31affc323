-- ===== src/Inode/Read.antt =====
-- kernel/fs.c: `readi` reads what the blocks of the file hold.
use gem_os_extension.Base.{
  ℕ, zero, suc, ◌+◌, ◌-◌, ◌*◌, ◌/◌, ◌%◌, ◌^◌, ◌<◌, ◌≤◌, ◌≡◌, ◌≢◌, inl, inr, refl, sym, ap, ap₂, ◌∙◌,
  true, false, Bool-cases, ◌&&◌, ltb, leb, ◌==◌, if◌then◌else◌, if-false, done, arith,
}
use gem_os_extension.Log.{Log}
use gem_os_extension.Fs.{Block, Superblock, bsize}
use gem_os_extension.Inode.{ndirect, nindirect, word_at, slot, indirect, bmap}
use gem_os_extension.Inode.Mapping.{lookup}
use gem_os_extension.Inode.Content.{min, copied, ReadResult, readi_from, readi}

-- `bmap` of a block that has its place changes nothing.
pub bmap-found :
    (sb : Superblock) (addrs : ℕ → ℕ) (bn : ℕ) (l : Log Block)
    → bn < ndirect + nindirect
    → lookup addrs l.cache bn ≢ 0
    → bmap sb addrs bn l ≡ done (record { addr = lookup addrs l.cache bn; addrs = addrs; log = l })
unfolding bmap slot indirect
bmap-found sb addrs bn l low given = elim (Bool-cases (ltb bn ndirect)) [
  | inl direct ↦
      let found : addrs bn == 0 ≡ false = ground (arith, given, direct) in rw (direct, found) refl
  | inr below ↦
      let range : ltb (bn - ndirect) nindirect ≡ true = ground (arith, low, below) in
      let first : addrs ndirect == 0 ≡ false = ground (arith, given, below) in
      let second : word_at (l.cache (addrs ndirect)) (bn - ndirect) == 0 ≡ false =
        ground (arith, given, below) in
      rw (below, range, first, second) (rw first refl)
]

-- A byte of a file.
abbrev pub byte_of : (ℕ → ℕ) → (ℕ → Block) → ℕ → ℕ
byte_of addrs cache i = cache (lookup addrs cache (i / bsize)) (i % bsize)

-- The memory with n bytes of the file from `off` on at dst.
abbrev pub filled : (ℕ → ℕ) → ℕ → (ℕ → ℕ) → ℕ → ℕ → ℕ → ℕ
filled mem dst file off n a = if leb dst a && ltb a (dst + n) then file (off + (a - dst)) else mem a

-- Every block of n bytes from `off` on has its place.
abbrev pub HasBlocks : (ℕ → ℕ) → (ℕ → Block) → ℕ → ℕ → Type 0
HasBlocks addrs cache off n = (i : ℕ) → off ≤ i → i < off + n → lookup addrs cache (i / bsize) ≢ 0

-- Bytes of one block.
copied-filled :
    (addrs : ℕ → ℕ) (cache : ℕ → Block) (mem : ℕ → ℕ) (dst off m a : ℕ)
    → m ≤ bsize - off % bsize
    → copied mem dst (cache (lookup addrs cache (off / bsize))) (off % bsize) m a
      ≡ filled mem dst (byte_of addrs cache) off m a
copied-filled addrs cache mem dst off m a short = elim (Bool-cases (leb dst a && ltb a (dst + m))) [
  | inr outside ↦ rw outside refl
  | inl inside ↦
      let block : off / bsize ≡ (off + (a - dst)) / bsize = ground (arith, inside, short) in
      let place : off % bsize + (a - dst) ≡ (off + (a - dst)) % bsize =
        ground (arith, inside, short) in
      rw inside (ap₂ (λ b i. cache (lookup addrs cache b) i) block place)
]

-- First m bytes, then k more.
pub filled-add :
    (mem file : ℕ → ℕ) (dst off m k a : ℕ)
    → filled (filled mem dst file off m) (dst + m) file (off + m) k a
      ≡ filled mem dst file off (m + k) a
filled-add mem file dst off m k a = elim (Bool-cases (leb (dst + m) a && ltb a (dst + m + k))) [
  | inl later ↦
      let whole : leb dst a && ltb a (dst + (m + k)) ≡ true = ground (arith, later) in
      let place : off + m + (a - (dst + m)) ≡ off + (a - dst) = ground (arith, later) in
      rw (later, whole) (ap file place)
  | inr other ↦ elim (Bool-cases (leb dst a && ltb a (dst + m))) [
    | inl first ↦
        let whole : leb dst a && ltb a (dst + (m + k)) ≡ true = ground (arith, first) in
        rw (other, first, whole) refl
    | inr none_there ↦
        let whole : leb dst a && ltb a (dst + (m + k)) ≡ false =
          ground (arith, other, none_there) in
        rw (other, none_there, whole) refl
  ]
]

module _ (sb : Superblock) (addrs : ℕ → ℕ) (l : Log Block) where
  -- The state after a round that reads m bytes.
  abbrev one_read : ℕ → ℕ → ℕ → (ℕ → ℕ) → ℕ → ReadResult
  one_read dst off m mem tot = record {
    tot = tot + m;
    mem = copied mem dst (l.cache (lookup addrs l.cache (off / bsize))) (off % bsize) m;
    addrs = addrs;
    log = l;
  }

  abbrev chunk : ℕ → ℕ → ℕ
  chunk left off = min left (bsize - off % bsize)

  readi_from-round :
      (fuel dst off n tot : ℕ) (mem : ℕ → ℕ)
      → tot < n
      → off / bsize < ndirect + nindirect
      → lookup addrs l.cache (off / bsize) ≢ 0
      → readi_from sb (suc fuel) dst off n (record { tot = tot; mem = mem; addrs = addrs; log = l })
        ≡ readi_from sb fuel
            (dst + chunk (n - tot) off)
            (off + chunk (n - tot) off)
            n
            (one_read dst off (chunk (n - tot) off) mem tot)
  unfolding readi_from
  readi_from-round fuel dst off n tot mem more low given =
      let going : ltb tot n ≡ true = ground (arith, more) in
      let there : lookup addrs l.cache (off / bsize) == 0 ≡ false = ground (arith, given) in
      rw going (rw (bmap-found sb addrs (off / bsize) l low given) (rw there refl))

  readi_from-IsRead :
      (fuel dst off n tot : ℕ) (mem : ℕ → ℕ)
      → tot ≤ n
      → n - tot < fuel
      → off + (n - tot) ≤ (ndirect + nindirect) * bsize
      → HasBlocks addrs l.cache off (n - tot)
      → (r1 : ReadResult) × (readi_from sb fuel dst off n
            (record { tot = tot; mem = mem; addrs = addrs; log = l })
          ≡ done r1)
        × (r1.tot ≡ n)
        × (r1.addrs ≡ addrs)
        × (r1.log ≡ l)
        × ((a : ℕ) → r1.mem a ≡ filled mem dst (byte_of addrs l.cache) off (n - tot) a)
  unfolding readi_from
  readi_from-IsRead zero dst off n tot mem le enough low blocks = absurd (omega (arith, enough))
  readi_from-IsRead (suc fuel) dst off n tot mem le enough low blocks =
      elim (Bool-cases (ltb tot n)) [
        | inr over ↦
            let all : tot ≡ n = ground (arith, over, le) in
            let left : n - tot ≡ 0 = omega (arith, all) in
            (
              record { tot = tot; mem = mem; addrs = addrs; log = l },
              rw over refl,
              all,
              refl,
              refl,
              λ a.
                  let outside : leb dst a && ltb a (dst + (n - tot)) ≡ false =
                    ground (arith, left) in
                  sym (
                    if-false (leb dst a && ltb a (dst + (n - tot)))
                      (byte_of addrs l.cache (off + (a - dst))) (mem a) outside),
            )
        | inl going ↦
            let more : tot < n = ground (arith, going) in
            let m = chunk (n - tot) off in
            let short : m ≤ bsize - off % bsize = ground arith in
            let part : m ≤ n - tot = ground arith in
            let some_read : 1 ≤ m = ground (arith, more) in
            let left : n - (tot + m) ≡ n - tot - m = omega arith in
            let start = one_read dst off m mem tot in
            let (r1, e, tot1, addrs1, log1, mem1) =
              readi_from-IsRead fuel (dst + m) (off + m) n (tot + m) start.mem
                (omega (arith, part, more)) (omega (arith, some_read, enough, more))
                (omega (arith, left, part, low))
                (λ i above below.
                  blocks i (omega (arith, above)) (omega (arith, below, left, part))) in
            (
              r1,
              readi_from-round fuel dst off n tot mem more (omega (arith, low, more))
                    (blocks off (omega arith) (omega (arith, more)))
                  ∙ e,
              tot1,
              addrs1,
              log1,
              λ a.
                  let whole : m + (n - (tot + m)) ≡ n - tot = omega (arith, left, part) in
                  mem1 a
                  ∙ ap
                      (λ x.
                        if leb (dst + m) a && ltb a (dst + m + (n - (tot + m)))
                        then byte_of addrs l.cache (off + m + (a - (dst + m)))
                        else x)
                      (copied-filled addrs l.cache mem dst off m a short)
                  ∙ filled-add mem (byte_of addrs l.cache) dst off m (n - (tot + m)) a
                  ∙ ap (λ k. filled mem dst (byte_of addrs l.cache) off k a) whole,
            )
      ]

-- The bytes that `readi` may read: none past the end of the file.
abbrev pub readable : ℕ → ℕ → ℕ → ℕ
readable size off n = min n (size - off)

-- `readi` of n bytes at an offset within a file of at most MAXFILE blocks, whose blocks there all
-- have their places, returns: as many bytes as the file still has, up to n, are at dst as the file
-- holds them, the rest of memory and the inode stay, and nothing is allocated. The end of the range
-- is below 2^32.
pub readi-filled :
    (sb : Superblock) (size off n dst : ℕ) (addrs mem : ℕ → ℕ) (l : Log Block)
    → off ≤ size
    → off + n < 2 ^ 32
    → size ≤ (ndirect + nindirect) * bsize
    → HasBlocks addrs l.cache off (readable size off n)
    → (r1 : ReadResult) × (readi sb size addrs dst off n mem l ≡ done r1)
      × (r1.tot ≡ readable size off n)
      × (r1.addrs ≡ addrs)
      × (r1.log ≡ l)
      × ((a : ℕ) → r1.mem a ≡ filled mem dst (byte_of addrs l.cache) off (readable size off n) a)
unfolding readi
readi-filled sb size off n dst addrs mem l within no_wrap small blocks =
    let m = readable size off n in
    let all : m - 0 ≡ m = omega arith in
    let (r1, e, tot1, addrs1, log1, mem1) =
      readi_from-IsRead sb addrs l (suc m) dst off m 0 mem (omega arith) (omega arith)
        (ground (arith, within, small))
        (λ i above below. blocks i above (omega (arith, all, below))) in
    let past : (off + n) % 2 ^ 32 ≡ off + n = omega (arith, no_wrap) in
    let inside : ltb size off ≡ false = ground (arith, within) in
    let kept : ltb (off + n) off ≡ false = ground arith in
    let bytes : (if ltb size (off + n) then size - off else n) ≡ m = ground (arith, within) in
    (
      r1,
      rw (past, inside, kept, bytes) e,
      tot1,
      addrs1,
      log1,
      λ a. mem1 a ∙ ap (λ k. filled mem dst (byte_of addrs l.cache) off k a) all,
    )
