-- ===== src/Inode/Writing.antt =====
-- kernel/fs.c: `writei` from the kernel's memory. `either_copyin` does not fail there.
use gem_os_extension.Base.{
  ℕ, zero, suc, ◌+◌, ◌-◌, ◌*◌, ◌/◌, ◌%◌, ◌^◌, ◌&&◌, ltb, leb, ◌==◌, if◌then◌else◌, ℤ, pos,
  minus_one, Outcome, done, spin, ◌>>=◌,
}
use gem_os_extension.Log.{Log, log_write}
use gem_os_extension.Fs.{Block, Superblock, bsize}
use gem_os_extension.Inode.{ndirect, nindirect, bmap}
use gem_os_extension.Inode.Content.{min}
use gem_os_extension.Inode.Dinode.{Inode, iupdate}

-- `memmove` of m bytes to the offset `place` of a block.
abbrev pub patched : Block → ℕ → (ℕ → ℕ) → ℕ → ℕ → Block
patched bytes place mem src m i =
    if leb place i && ltb i (place + m) then mem (src + (i - place)) else bytes i

-- The bytes written, the offset behind them, the inode's array and the state.
pub record WriteResult : Type 0 where
  pub tot : ℕ
  pub off : ℕ
  pub addrs : ℕ → ℕ
  pub log : Log Block

-- The loop of `writei` on fuel.
unfoldable pub writei_from : Superblock → ℕ → (ℕ → ℕ) → ℕ → ℕ → WriteResult → Outcome WriteResult
writei_from sb zero mem src n r = spin
writei_from sb (suc fuel) mem src n r =
    let round = bmap sb r.addrs (r.off / bsize) r.log >>= λ found.
    let m = min (n - r.tot) (bsize - r.off % bsize) in
    let bytes = patched (found.log.cache found.addr) (r.off % bsize) mem src m in
    let next = log_write found.addr bytes found.log >>= λ l1.
    writei_from sb fuel mem (src + m) n
      (record { tot = r.tot + m; off = r.off + m; addrs = found.addrs; log = l1 }) in
    if found.addr == 0 then done (record r { addrs = found.addrs; log = found.log }) else next in
    if ltb r.tot n then round else done r

unfoldable pub writei :
    Superblock → ℕ → ℕ → Inode → (ℕ → ℕ) → ℕ → ℕ → ℕ → Log Block → Outcome (ℤ × Inode × Log Block)
writei sb inodestart inum ip mem src off n l =
    let past = (off + n) % 2 ^ 32 in
    let written =
      writei_from sb (suc n) mem src n (record { tot = 0; off = off; addrs = ip.addrs; log = l })
      >>= λ r.
          let ip1 = record ip {
            size = if ltb ip.size r.off then r.off else ip.size;
            addrs = r.addrs;
          } in
          iupdate inodestart inum ip1 r.log >>= λ l1. done (pos r.tot, ip1, l1) in
    if ltb ip.size off
    then done (minus_one, ip, l)
    else if ltb past off
    then done (minus_one, ip, l)
    else if ltb ((ndirect + nindirect) * bsize) past
    then done (minus_one, ip, l)
    else written
