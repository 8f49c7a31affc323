-- ===== src/Inode.antt =====
-- kernel/fs.c: the blocks of a file. An inode is its array `addrs`; its indirect block holds
-- 32-bit words, the low byte first.
pub mod Words
pub mod Mapping
pub mod Bmap
pub mod Content
pub mod Read
pub mod Writing
pub mod Write
pub mod Overwrite
pub mod WriteRead
pub mod Dinode
pub mod Update
use gem_os_extension.Base.{
  ℕ, ◌+◌, ◌-◌, ◌*◌, ◌/◌, ◌%◌, Option, none, some, ltb, ◌==◌, if◌then◌else◌, update, Outcome, done,
  panic, ◌>>=◌,
}
use gem_os_extension.Log.{Log, log_write}
use gem_os_extension.Fs.{Block, Superblock, bsize, balloc}

abbrev pub ndirect : ℕ
ndirect = 12

abbrev pub nindirect : ℕ
nindirect = bsize / 4

-- The word of an index, in a block seen as an array of `uint`, and a store to it.
unfoldable pub word_at : Block → ℕ → ℕ
word_at bytes i =
    bytes (4 * i)
    + bytes (4 * i + 1) * 256
    + bytes (4 * i + 2) * 65536
    + bytes (4 * i + 3) * 16777216

unfoldable pub put_word : Block → ℕ → ℕ → Block
put_word bytes i v =
    update
      (update (update (update bytes (4 * i) (v % 256)) (4 * i + 1) (v / 256 % 256)) (4 * i + 2)
        (v / 65536 % 256))
      (4 * i + 3) (v / 16777216 % 256)

-- An address, the array and the state.
pub record Mapped : Type 0 where
  pub addr : ℕ
  pub addrs : ℕ → ℕ
  pub log : Log Block

-- The entry of the array, with a block allocated for it if it has none.
unfoldable pub slot : Superblock → (ℕ → ℕ) → ℕ → Log Block → Outcome Mapped
slot sb addrs i l =
    let new = balloc sb l >>= λ (addr, l1).
    if addr == 0
    then done (record { addr = 0; addrs = addrs; log = l1 })
    else done (record { addr = addr; addrs = update addrs i addr; log = l1 }) in
    if addrs i == 0 then new else done (record { addr = addrs i; addrs = addrs; log = l })

-- The entry of the indirect block that `m` gives.
unfoldable pub indirect : Superblock → ℕ → Mapped → Outcome Mapped
indirect sb bn m =
    let addr = word_at (m.log.cache m.addr) bn in
    let new = balloc sb m.log >>= λ (addr, l1).
    if addr == 0
    then done (record m { addr = 0; log = l1 })
    else log_write m.addr (put_word (l1.cache m.addr) bn addr) l1 >>= λ l2.
        done (record m { addr = addr; log = l2 }) in
    if addr == 0 then new else done (record m { addr = addr })

unfoldable pub bmap : Superblock → (ℕ → ℕ) → ℕ → Log Block → Outcome Mapped
bmap sb addrs bn l =
    let direct = slot sb addrs bn l in
    let below = slot sb addrs ndirect l >>= λ m.
    if m.addr == 0 then done m else indirect sb (bn - ndirect) m in
    if ltb bn ndirect then direct else if ltb (bn - ndirect) nindirect then below else panic
