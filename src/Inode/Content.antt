-- ===== src/Inode/Content.antt =====
-- kernel/fs.c: `readi` into the kernel's memory, which is a function from addresses to bytes.
-- `either_copyout` does not fail there.
use gem_os_extension.Base.{
  ℕ, zero, suc, ◌+◌, ◌-◌, ◌/◌, ◌%◌, ◌^◌, ◌&&◌, ltb, leb, ◌==◌, if◌then◌else◌, Outcome, done, spin,
  ◌>>=◌,
}
use gem_os_extension.Log.{Log}
use gem_os_extension.Fs.{Block, Superblock, bsize}
use gem_os_extension.Inode.{bmap}

abbrev pub min : ℕ → ℕ → ℕ
min a b = if ltb a b then a else b

-- `memmove` of m bytes from the offset `from` of a block.
abbrev pub copied : (ℕ → ℕ) → ℕ → Block → ℕ → ℕ → ℕ → ℕ
copied mem dst bytes from m a =
    if leb dst a && ltb a (dst + m) then bytes (from + (a - dst)) else mem a

-- The number of bytes read, the memory, the inode's array and the state.
pub record ReadResult : Type 0 where
  pub tot : ℕ
  pub mem : ℕ → ℕ
  pub addrs : ℕ → ℕ
  pub log : Log Block

-- The loop of `readi` on fuel.
unfoldable pub readi_from : Superblock → ℕ → ℕ → ℕ → ℕ → ReadResult → Outcome ReadResult
readi_from sb zero dst off n r = spin
readi_from sb (suc fuel) dst off n r =
    let round = bmap sb r.addrs (off / bsize) r.log >>= λ found.
    let m = min (n - r.tot) (bsize - off % bsize) in
    let bytes = found.log.cache found.addr in
    let rest = readi_from sb fuel (dst + m) (off + m) n (record {
      tot = r.tot + m;
      mem = copied r.mem dst bytes (off % bsize) m;
      addrs = found.addrs;
      log = found.log;
    }) in
    if found.addr == 0 then done (record r { addrs = found.addrs; log = found.log }) else rest in
    if ltb r.tot n then round else done r

unfoldable pub readi :
    Superblock → ℕ → (ℕ → ℕ) → ℕ → ℕ → ℕ → (ℕ → ℕ) → Log Block → Outcome ReadResult
readi sb size addrs dst off n mem l =
    let start : ReadResult = record { tot = 0; mem = mem; addrs = addrs; log = l } in
    let past = (off + n) % 2 ^ 32 in
    let m = if ltb size past then size - off else n in
    if ltb size off
    then done start
    else if ltb past off
    then done start
    else readi_from sb (suc m) dst off m start
