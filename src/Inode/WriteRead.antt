-- ===== src/Inode/WriteRead.antt =====
-- kernel/fs.c: `readi` reads what `writei` wrote.
use gem_os_extension.Base.{
  ℕ, ◌+◌, ◌-◌, ◌*◌, ◌/◌, ◌<◌, ◌≤◌, ◌≡◌, ◌≢◌, refl, sym, ap, ◌∙◌, true, Bool-cases, inl, inr, ◌&&◌,
  ltb, leb, if◌then◌else◌, pos, done, arith,
}
use gem_os_extension.Log.{Log, logblocks}
use gem_os_extension.Fs.{Block, Superblock, bsize}
use gem_os_extension.Inode.{ndirect}
use gem_os_extension.Inode.Mapping.{lookup}
use gem_os_extension.Inode.Content.{ReadResult, readi}
use gem_os_extension.Inode.Dinode.{Inode, iblock}
use gem_os_extension.Inode.Read.{byte_of, filled, HasBlocks, readable, readi-filled}
use gem_os_extension.Inode.Writing.{writei}
use gem_os_extension.Inode.Write.{maxfile, IsPlaced}
use gem_os_extension.Inode.Overwrite.{rounds, writei-IsOverwritten}

-- Bytes copied by way of the file.
filled-filled :
    (mem mem1 file : ℕ → ℕ) (src dst off n a : ℕ)
    → filled mem1 dst (filled file off mem src n) off n a ≡ filled mem1 dst mem src n a
filled-filled mem mem1 file src dst off n a = elim (Bool-cases (leb dst a && ltb a (dst + n))) [
  | inr outside ↦ rw outside refl
  | inl inside ↦
      let within : leb off (off + (a - dst)) && ltb (off + (a - dst)) (off + n) ≡ true =
        ground (arith, inside) in
      let offset : off + (a - dst) - off ≡ a - dst = omega arith in
      rw (inside, within) (ap (λ d. mem (src + d)) offset)
]

-- `writei` of n bytes within a file answers n, and `readi` of that range then copies the bytes that
-- were written, from src to dst. The file has no more than MAXFILE blocks; its blocks in the range
-- have places, no two of its blocks share one, and none is its indirect block or the block of the
-- inode; the transaction has space for these blocks and the inode's.
pub readi-writei :
    (sb : Superblock) (inodestart inum src dst off n : ℕ) (ip : Inode) (mem mem1 : ℕ → ℕ)
    (l : Log Block)
    → off + n ≤ ip.size
    → ip.size ≤ maxfile * bsize
    → HasBlocks ip.addrs l.cache off n
    → IsPlaced ip.addrs l.cache
    → iblock inum inodestart ≢ ip.addrs ndirect
    → ((j : ℕ) → j < maxfile → iblock inum inodestart ≢ lookup ip.addrs l.cache j)
    → l.lh.n + rounds off n < logblocks
    → 1 ≤ l.outstanding
    → (l1 : Log Block) × (r1 : ReadResult) × (writei sb inodestart inum ip mem src off n l
        ≡ done (pos n, ip, l1))
      × (readi sb ip.size ip.addrs dst off n mem1 l1 ≡ done r1)
      × (r1.tot ≡ n)
      × ((a : ℕ) → r1.mem a ≡ filled mem1 dst mem src n a)
readi-writei sb inodestart inum src dst off n ip mem mem1 l within small blocks h apart away space
      begun =
    let (l1, e, places, bytes) =
      writei-IsOverwritten sb inodestart inum src off n ip mem l within small blocks h apart away
        space begun in
    let all : readable ip.size off n ≡ n = ground (arith, within) in
    let there : HasBlocks ip.addrs l1.cache off (readable ip.size off n) = λ i above below z.
      blocks i above (ground (arith, all, below))
        (sym (places (i / bsize) (omega (arith, all, below, within, small))) ∙ z) in
    let (r1, e1, tot1, addrs1, log1, mem2) =
      readi-filled sb ip.size off n dst ip.addrs mem1 l1 (omega (arith, within))
        (omega (arith, within, small)) small there in
    (
      l1,
      r1,
      e,
      e1,
      tot1 ∙ all,
      λ a.
          mem2 a
          ∙ ap (λ k. filled mem1 dst (byte_of ip.addrs l1.cache) off k a) all
          ∙ elim (Bool-cases (leb dst a && ltb a (dst + n))) [
            | inr outside ↦ rw outside refl
            | inl inside ↦
                let low : (off + (a - dst)) / bsize < maxfile =
                  ground (arith, inside, within, small) in
                ap (λ v. if leb dst a && ltb a (dst + n) then v else mem1 a)
                  (bytes (off + (a - dst)) low)
                ∙ filled-filled mem mem1 (byte_of ip.addrs l.cache) src dst off n a
          ],
    )
