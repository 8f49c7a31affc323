-- ===== src/Tests/InodeRuns.antt =====
-- A file that has no indirect block yet gets the block behind its direct ones.
use gem_os_extension.Base.{
  ℕ, ◌+◌, ◌<◌, ◌≡◌, ◌≢◌, inl, refl, arith, done, pos, ◌%◌, ◌/◌, if◌then◌else◌, ltb,
}
use gem_os_extension.Inode.{Mapped, bmap}
use gem_os_extension.Inode.Mapping.{IsMapped, lookup}
use gem_os_extension.Inode.Bmap.{HasSpace, bmap-IsMapped}
use gem_os_extension.Inode.Content.{ReadResult, readi}
use gem_os_extension.Inode.Read.{byte_of, filled, readi-filled}
use gem_os_extension.Log.{Log}
use gem_os_extension.Fs.{Block}
use gem_os_extension.Inode.{word_at}
use gem_os_extension.Inode.Dinode.{Inode, iblock, dip, iupdate, ilock_read}
use gem_os_extension.Inode.Update.{IsInode, SameInode, ilock_read-iupdate}
use gem_os_extension.Inode.Writing.{writei}
use gem_os_extension.Inode.Write.{IsPlaced}
use gem_os_extension.Inode.Overwrite.{writei-IsOverwritten}
use gem_os_extension.Inode.WriteRead.{readi-writei}
use gem_os_extension.Tests.FsRuns.{small, blocks, system, blocks-IsFs}

-- The direct blocks are the last ones of those in use.
abbrev direct_only : ℕ → ℕ
direct_only i = if ltb i 12 then 47 else 0

blocks-HasSpace : HasSpace 5 (system blocks)
blocks-HasSpace = record { begun = omega arith; space = omega arith }

bmap-IsMapped_example :
    (m : Mapped) × (bmap small direct_only 12 (system blocks) ≡ done m)
    × IsMapped small direct_only blocks 12 m
bmap-IsMapped_example =
    bmap-IsMapped small direct_only 12 (system blocks) (omega arith) (omega arith) blocks-IsFs
      blocks-HasSpace (inl refl)

-- The last 2000 bytes of 3000, across two borders of blocks.
readi-filled_example :
    (r1 : ReadResult) × (readi small 3000 direct_only 1000 1000 5000 (λ a. 7) (system blocks)
      ≡ done r1)
    × (r1.tot ≡ 2000)
    × (r1.addrs ≡ direct_only)
    × (r1.log ≡ system blocks)
    × ((a : ℕ) → r1.mem a ≡ filled (λ b. 7) 1000 (byte_of direct_only blocks) 1000 2000 a)
readi-filled_example =
    readi-filled small 3000 1000 5000 1000 direct_only (λ a. 7) (system blocks) (omega arith)
      (omega arith) (omega arith) (λ i above below. ground (arith, below))

-- A file with one link.
abbrev some_file : Inode
some_file = record { type = 2; major = 0; minor = 0; nlink = 1; size = 3000; addrs = direct_only }

some_file-IsInode : IsInode some_file
some_file-IsInode = record {
  used = ground arith;
  type = ground arith;
  major = ground arith;
  minor = ground arith;
  nlink = ground arith;
  size = ground arith;
  addrs = λ i low. ground arith;
}

ilock_read-iupdate_example :
    (l1 : Log Block) × (ip1 : Inode) × (iupdate 32 21 some_file (system blocks) ≡ done l1)
    × (ilock_read 32 21 l1 ≡ done ip1)
    × SameInode some_file ip1
    × ((other i : ℕ)
        → other ≢ 21
        → i < 16
        → word_at (l1.cache (iblock other 32)) (dip other + i)
          ≡ word_at (blocks (iblock other 32)) (dip other + i))
ilock_read-iupdate_example =
    ilock_read-iupdate 32 21 some_file (system blocks) some_file-IsInode (omega arith) (omega arith)

-- A file with a place of its own for each of its direct blocks.
abbrev placed : ℕ → ℕ
placed i = if ltb i 12 then 50 + i else 0

abbrev placed_file : Inode
placed_file = record { type = 2; major = 0; minor = 0; nlink = 1; size = 3000; addrs = placed }

placed-IsPlaced : IsPlaced placed blocks
placed-IsPlaced = record {
  apart = λ i j low_i low_j given other. ground (arith, given, other);
  indirect = λ i low given. ground (arith, given);
}

readi-writei_example :
    (l1 : Log Block) × (r1 : ReadResult) × (writei small 32 21 placed_file
        (λ a. a % 256)
        700
        1000
        1500
        (system blocks)
      ≡ done (pos 1500, placed_file, l1))
    × (readi small 3000 placed 9000 1000 1500 (λ a. 7) l1 ≡ done r1)
    × (r1.tot ≡ 1500)
    × ((a : ℕ) → r1.mem a ≡ filled (λ b. 7) 9000 (λ b. b % 256) 700 1500 a)
readi-writei_example =
    readi-writei small 32 21 700 9000 1000 1500 placed_file (λ a. a % 256) (λ a. 7) (system blocks)
      (omega arith) (omega arith) (λ i above below. ground (arith, below)) placed-IsPlaced
      (ground arith) (λ j low. ground arith) (omega arith) (omega arith)

writei-IsOverwritten_example :
    (l1 : Log Block) × (writei small 32 21 placed_file (λ a. a % 256) 700 1000 1500 (system blocks)
      ≡ done (pos 1500, placed_file, l1))
    × ((j : ℕ) → j < 268 → lookup placed l1.cache j ≡ lookup placed blocks j)
    × ((x : ℕ)
        → x / 1024 < 268
        → byte_of placed l1.cache x ≡ filled (byte_of placed blocks) 1000 (λ a. a % 256) 700 1500 x)
writei-IsOverwritten_example =
    writei-IsOverwritten small 32 21 700 1000 1500 placed_file (λ a. a % 256) (system blocks)
      (omega arith) (omega arith) (λ i above below. ground (arith, below)) placed-IsPlaced
      (ground arith) (λ j low. ground arith) (omega arith) (omega arith)
