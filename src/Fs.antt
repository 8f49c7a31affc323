-- ===== src/Fs.antt =====
-- kernel/fs.c: the bitmap of free blocks. Blocks are read and written through the log; a block is
-- its bytes, as `bread` gives them.
pub mod Bits
mod Search
pub mod Bitmap
pub mod Alloc
pub mod Free
use gem_os_extension.Base.{
  ℕ, zero, suc, ◌+◌, ◌-◌, ◌*◌, ◌/◌, ◌%◌, ◌^◌, ◌<◌, Bool, true, false, not, ◌&&◌, Option, none, some,
  ltb, ◌==◌, if◌then◌else◌, update, Outcome, done, panic, spin, ◌>>=◌,
}
use Prim.Native.Nat.{bit_and, bit_or}
use gem_os_extension.Log.{Log, log_write}

abbrev pub bsize : ℕ
bsize = 1024

abbrev pub bpb : ℕ
bpb = bsize * 8

-- The bytes of a block.
abbrev pub Block : Type 0
Block = ℕ → ℕ

-- `struct superblock`, the fields that the bitmap needs.
pub record Superblock : Type 0 where
  pub size : ℕ
  pub bmapstart : ℕ

abbrev pub bblock : ℕ → Superblock → ℕ
bblock b sb = b / bpb + sb.bmapstart

-- The mask `m` of a bit, the test of the bit, and the bytes with the bit set and cleared.
abbrev pub mask : ℕ → ℕ
mask bi = 2 ^ (bi % 8)

unfoldable pub is_clear : Block → ℕ → Bool
is_clear bytes bi = bit_and (bytes (bi / 8)) (mask bi) == 0

unfoldable pub set_bit : Block → ℕ → Block
set_bit bytes bi = update bytes (bi / 8) (bit_or (bytes (bi / 8)) (mask bi))

unfoldable pub clear_bit : Block → ℕ → Block
clear_bit bytes bi = update bytes (bi / 8) (bit_and (bytes (bi / 8)) (255 - mask bi))

unfoldable pub bzero : ℕ → Log Block → Outcome (Log Block)
bzero bno l = log_write bno (λ i. 0) l

-- The inner loop of `balloc`, `m` rounds from the bit bi on.
unfoldable pub find_clear : Superblock → Block → ℕ → ℕ → ℕ → Option ℕ
find_clear sb bytes b zero bi = none
find_clear sb bytes b (suc m) bi =
    let rest = find_clear sb bytes b m (bi + 1) in
    if not (ltb (b + bi) sb.size) then none else if is_clear bytes bi then some bi else rest

-- The outer loop; the second argument is the fuel.
unfoldable pub balloc_from : Superblock → ℕ → ℕ → Log Block → Outcome (ℕ × Log Block)
balloc_from sb zero b l = spin
balloc_from sb (suc fuel) b l =
    let bytes = l.cache (bblock b sb) in
    let rest = balloc_from sb fuel (b + bpb) l in
    let found : Outcome (ℕ × Log Block) = elim (find_clear sb bytes b bpb 0) [
      | none ↦ rest
      | some bi ↦ log_write (bblock b sb) (set_bit bytes bi) l >>= λ l1.
          bzero (b + bi) l1 >>= λ l2. done (b + bi, l2)
    ] in
    if ltb b sb.size then found else done (0, l)

unfoldable pub balloc : Superblock → Log Block → Outcome (ℕ × Log Block)
balloc sb l = balloc_from sb (sb.size + 1) 0 l

unfoldable pub bfree : Superblock → ℕ → Log Block → Outcome (Log Block)
bfree sb b l =
    let bytes = l.cache (bblock b sb) in
    let bi = b % bpb in
    if is_clear bytes bi then panic else log_write (bblock b sb) (clear_bit bytes bi) l
