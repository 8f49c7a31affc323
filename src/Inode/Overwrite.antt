-- ===== src/Inode/Overwrite.antt =====
-- kernel/fs.c: `writei` over blocks that a file has.
use gem_os_extension.Base.{
  ℕ, zero, suc, ◌+◌, ◌-◌, ◌*◌, ◌/◌, ◌%◌, ◌^◌, ◌<◌, ◌≤◌, ◌≡◌, ◌≢◌, ◌⊎◌, inl, inr, refl, sym, ap, ap₂,
  ◌∙◌, subst, true, false, Bool-cases, ◌&&◌, ltb, leb, ◌==◌, if◌then◌else◌, if-false, update_other,
  pos, done, ◌>>=◌, arith,
}
use gem_os_extension.Log.{Log, logblocks}
use gem_os_extension.Fs.{Block, Superblock, bsize}
use gem_os_extension.Fs.Bitmap.{logged, log_write-logged}
use gem_os_extension.Inode.{ndirect}
use gem_os_extension.Inode.Mapping.{lookup}
use gem_os_extension.Inode.Content.{min}
use gem_os_extension.Inode.Dinode.{Inode, iblock, dip, put_dinode, iupdate}
use gem_os_extension.Inode.Read.{bmap-found, byte_of, filled, filled-add, HasBlocks}
use gem_os_extension.Inode.Writing.{patched, writei_from, writei}
use gem_os_extension.Inode.Write.{
  maxfile, IsPlaced, lookup-other, after-lookup, after-IsPlaced, byte_of-after,
}

-- The rounds that are left, one for each block.
abbrev pub rounds : ℕ → ℕ → ℕ
rounds off left = if left == 0 then 0 else (off % bsize + left + 1023) / bsize

rounds-add :
    (off m k : ℕ)
    → m ≤ bsize - off % bsize
    → 1 ≤ m
    → (m ≡ bsize - off % bsize) ⊎ (k ≡ 0)
    → 1 + rounds (off + m) k ≤ rounds off (m + k)
rounds-add off m k short some_written last = ground (arith, short, some_written, last)

-- What was written is in the file, all else is as it was, and no block has moved.
pub record IsOverwritten (addrs : ℕ → ℕ) (l : Log Block) (mem : ℕ → ℕ) (src off left : ℕ)
    (l1 : Log Block) : Type 0 where
  pub space : l1.lh.n ≤ l.lh.n + rounds off left
  pub begun : l1.outstanding ≡ l.outstanding
  pub places : (j : ℕ) → j < maxfile → lookup addrs l1.cache j ≡ lookup addrs l.cache j
  pub bytes :
      (x : ℕ)
      → x / bsize < maxfile
      → byte_of addrs l1.cache x ≡ filled (byte_of addrs l.cache) off mem src left x

module _ (sb : Superblock) (addrs : ℕ → ℕ) (mem : ℕ → ℕ) where
  -- The state after a round that writes m bytes.
  abbrev one_write : ℕ → ℕ → ℕ → Log Block → Log Block
  one_write src off m l =
      let b = lookup addrs l.cache (off / bsize) in
      logged b (patched (l.cache b) (off % bsize) mem src m) l

  abbrev chunk : ℕ → ℕ → ℕ
  chunk left off = min left (bsize - off % bsize)

  writei_from-round :
      (fuel src off n tot : ℕ) (l : Log Block)
      → tot < n
      → off / bsize < maxfile
      → lookup addrs l.cache (off / bsize) ≢ 0
      → l.lh.n < logblocks
      → 1 ≤ l.outstanding
      → writei_from sb
          (suc fuel)
          mem
          src
          n
          (record { tot = tot; off = off; addrs = addrs; log = l })
        ≡ writei_from sb fuel mem (src + chunk (n - tot) off) n (record {
          tot = tot + chunk (n - tot) off;
          off = off + chunk (n - tot) off;
          addrs = addrs;
          log = one_write src off (chunk (n - tot) off) l;
        })
  unfolding writei_from
  writei_from-round fuel src off n tot l more low given space begun =
      let m = chunk (n - tot) off in
      let b = lookup addrs l.cache (off / bsize) in
      let going : ltb tot n ≡ true = ground (arith, more) in
      let there : b == 0 ≡ false = ground (arith, given) in
      let write =
        (log_write-logged b (patched (l.cache b) (off % bsize) mem src m) l space begun).0 in
      rw going (
        rw (bmap-found sb addrs (off / bsize) l low given) (
          rw there (
            ap
              (λ r. r >>= λ l1.
                writei_from sb fuel mem (src + m) n
                  (record { tot = tot + m; off = off + m; addrs = addrs; log = l1 }))
              write)))

  IsOverwritten-add :
      (src off m k : ℕ) (l l1 : Log Block)
      → IsPlaced addrs l.cache
      → off / bsize < maxfile
      → lookup addrs l.cache (off / bsize) ≢ 0
      → m ≤ bsize - off % bsize
      → 1 ≤ m
      → (m ≡ bsize - off % bsize) ⊎ (k ≡ 0)
      → IsOverwritten addrs (one_write src off m l) mem (src + m) (off + m) k l1
      → IsOverwritten addrs l mem src off (m + k) l1
  IsOverwritten-add src off m k l l1 h low given short some_written last rest = record {
    space =
        let grown : (one_write src off m l).lh.n ≤ l.lh.n + 1 = ground arith in
        omega (arith, rest.space, grown, rounds-add off m k short some_written last);
    begun = rest.begun;
    places =
        λ j low_j. rest.places j low_j ∙ after-lookup addrs l.cache mem src off m j h low given;
    bytes = λ x low_x.
        rest.bytes x low_x
        ∙ ap
            (λ y.
              if leb (off + m) x && ltb x (off + m + k) then mem (src + m + (x - (off + m))) else y)
            (byte_of-after addrs l.cache mem src off m x h low low_x given short)
        ∙ filled-add (byte_of addrs l.cache) mem off src m k x;
  }

  writei_from-IsOverwritten :
      (fuel src off n tot : ℕ) (l : Log Block)
      → tot ≤ n
      → n - tot < fuel
      → off + (n - tot) ≤ maxfile * bsize
      → HasBlocks addrs l.cache off (n - tot)
      → IsPlaced addrs l.cache
      → l.lh.n + rounds off (n - tot) ≤ logblocks
      → 1 ≤ l.outstanding
      → (l1 : Log Block) × (writei_from sb fuel mem src n
            (record { tot = tot; off = off; addrs = addrs; log = l })
          ≡ done (record { tot = n; off = off + (n - tot); addrs = addrs; log = l1 }))
        × IsOverwritten addrs l mem src off (n - tot) l1
  unfolding writei_from
  writei_from-IsOverwritten zero src off n tot l le enough low blocks h space begun =
      absurd (omega (arith, enough))
  writei_from-IsOverwritten (suc fuel) src off n tot l le enough low blocks h space begun =
      elim (Bool-cases (ltb tot n)) [
        | inr over ↦
            let all : tot ≡ n = ground (arith, over, le) in
            let left : n - tot ≡ 0 = omega (arith, all) in
            (
              l,
              rw over (
                  ap₂ (λ t o. done (record { tot = t; off = o; addrs = addrs; log = l })) all
                    (omega (arith, left))),
              record {
                space = ground arith;
                begun = refl;
                places = λ j low_j. refl;
                bytes = λ x low_x.
                    let outside : leb off x && ltb x (off + (n - tot)) ≡ false =
                      ground (arith, left) in
                    sym (
                      if-false (leb off x && ltb x (off + (n - tot))) (mem (src + (x - off)))
                        (byte_of addrs l.cache x) outside);
              },
            )
        | inl going ↦
            let more : tot < n = ground (arith, going) in
            let m = chunk (n - tot) off in
            let short : m ≤ bsize - off % bsize = ground arith in
            let part : m ≤ n - tot = ground arith in
            let some_written : 1 ≤ m = ground (arith, more) in
            let left : n - (tot + m) ≡ n - tot - m = omega arith in
            let last : (m ≡ bsize - off % bsize) ⊎ (n - (tot + m) ≡ 0) = ground arith in
            let given = blocks off (omega arith) (omega (arith, more)) in
            let low_block : off / bsize < maxfile = omega (arith, low, more) in
            let l2 = one_write src off m l in
            let grown : l2.lh.n ≤ l.lh.n + 1 = ground arith in
            let whole : m + (n - (tot + m)) ≡ n - tot = omega (arith, left, part) in
            let counted : 1 + rounds (off + m) (n - (tot + m)) ≤ rounds off (n - tot) =
              subst (λ k. 1 + rounds (off + m) (n - (tot + m)) ≤ rounds off k) whole
                (rounds-add off m (n - (tot + m)) short some_written last) in
            let room : l.lh.n < logblocks = omega (arith, counted, space) in
            let (l1, e, rest) =
              writei_from-IsOverwritten fuel (src + m) (off + m) n (tot + m) l2
                (omega (arith, part, more)) (omega (arith, some_written, enough, more))
                (omega (arith, left, part, low))
                (λ i above below z.
                  blocks i (omega (arith, above)) (omega (arith, below, left, part)) (
                    sym (after-lookup addrs l.cache mem src off m (i / bsize) h low_block given)
                    ∙ z))
                (after-IsPlaced addrs l.cache mem src off m h low_block given)
                (omega (arith, grown, counted, space)) begun in
            (
              l1,
              writei_from-round fuel src off n tot l more low_block given room begun
                  ∙ e
                  ∙ ap (λ o. done (record { tot = n; off = o; addrs = addrs; log = l1 }))
                      (omega (arith, whole)),
              subst (λ k. IsOverwritten addrs l mem src off k l1) whole
                  (IsOverwritten-add src off m (n - (tot + m)) l l1 h low_block given short
                    some_written last rest),
            )
      ]

-- The loop from its start.
writei_from-start :
    (sb : Superblock) (addrs : ℕ → ℕ) (mem : ℕ → ℕ) (src off n : ℕ) (l : Log Block)
    → off + n ≤ maxfile * bsize
    → HasBlocks addrs l.cache off n
    → IsPlaced addrs l.cache
    → l.lh.n + rounds off n ≤ logblocks
    → 1 ≤ l.outstanding
    → (l1 : Log Block) × (writei_from sb
          (suc n)
          mem
          src
          n
          (record { tot = 0; off = off; addrs = addrs; log = l })
        ≡ done (record { tot = n; off = off + n; addrs = addrs; log = l1 }))
      × IsOverwritten addrs l mem src off n l1
writei_from-start sb addrs mem src off n l low blocks h space begun =
    let all : n - 0 ≡ n = omega arith in
    subst
      (λ k.
        off + k ≤ maxfile * bsize
        → HasBlocks addrs l.cache off k
        → l.lh.n + rounds off k ≤ logblocks
        → (l1 : Log Block) × (writei_from sb (suc n) mem src n
              (record { tot = 0; off = off; addrs = addrs; log = l })
            ≡ done (record { tot = n; off = off + k; addrs = addrs; log = l1 }))
          × IsOverwritten addrs l mem src off k l1)
      all
      (λ low_k blocks_k space_k.
        writei_from-IsOverwritten sb addrs mem (suc n) src off n 0 l (omega arith) (omega arith)
          low_k blocks_k h space_k begun)
      low blocks space

-- `writei` of n bytes within a file answers n: the file then holds the bytes from src there and its
-- other bytes as before, and its size and the places of its blocks stay. The file has no more than
-- MAXFILE blocks; its blocks in the range have places, no two of its blocks share one, and none is
-- its indirect block or the block of the inode; the transaction has space for these blocks and the
-- inode's.
pub writei-IsOverwritten :
    (sb : Superblock) (inodestart inum src off n : ℕ) (ip : Inode) (mem : ℕ → ℕ) (l : Log Block)
    → off + n ≤ ip.size
    → ip.size ≤ maxfile * bsize
    → HasBlocks ip.addrs l.cache off n
    → IsPlaced ip.addrs l.cache
    → iblock inum inodestart ≢ ip.addrs ndirect
    → ((j : ℕ) → j < maxfile → iblock inum inodestart ≢ lookup ip.addrs l.cache j)
    → l.lh.n + rounds off n < logblocks
    → 1 ≤ l.outstanding
    → (l1 : Log Block) × (writei sb inodestart inum ip mem src off n l ≡ done (pos n, ip, l1))
      × ((j : ℕ) → j < maxfile → lookup ip.addrs l1.cache j ≡ lookup ip.addrs l.cache j)
      × ((x : ℕ)
          → x / bsize < maxfile
          → byte_of ip.addrs l1.cache x ≡ filled (byte_of ip.addrs l.cache) off mem src n x)
unfolding writei iupdate
writei-IsOverwritten sb inodestart inum src off n ip mem l within small blocks h apart away space
      begun =
    let (l2, e, over) =
      writei_from-start sb ip.addrs mem src off n l (omega (arith, within, small)) blocks h
        (omega (arith, space)) begun in
    let b = iblock inum inodestart in
    let bytes = put_dinode (l2.cache b) (dip inum) ip in
    let begun2 : 1 ≤ l2.outstanding = omega (arith, begun, over.begun) in
    let room : l2.lh.n < logblocks = omega (arith, over.space, space) in
    let update = (log_write-logged b bytes l2 room begun2).0 in
    let past : (off + n) % 2 ^ 32 ≡ off + n = omega (arith, within, small) in
    let inside : ltb ip.size off ≡ false = ground (arith, within) in
    let kept : ltb (off + n) off ≡ false = ground arith in
    let fits : ltb (maxfile * bsize) (off + n) ≡ false = ground (arith, within, small) in
    let size : ltb ip.size (off + n) ≡ false = ground (arith, within) in
    let places : (j : ℕ)
        → lookup ip.addrs (logged b bytes l2).cache j ≡ lookup ip.addrs l2.cache j =
      λ j. lookup-other ip.addrs l2.cache b j bytes apart in
    (
      logged b bytes l2,
      rw (past, inside, kept, fits, e) (rw (size, update) refl),
      (λ j low. places j ∙ over.places j low),
      λ x low.
          let other : b ≢ lookup ip.addrs l2.cache (x / bsize) =
            λ z. away (x / bsize) low (z ∙ over.places (x / bsize) low) in
          ap (λ c. (logged b bytes l2).cache c (x % bsize)) (places (x / bsize))
          ∙ ap (λ d. d (x % bsize))
              (update_other l2.cache b bytes (lookup ip.addrs l2.cache (x / bsize)) other)
          ∙ over.bytes x low,
    )
