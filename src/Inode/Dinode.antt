-- ===== src/Inode/Dinode.antt =====
-- kernel/fs.c: an inode on the disk. A `struct dinode` is 16 words of its block; its short fields are
-- patterns of 16 bits, two in a word.
use gem_os_extension.Base.{
  ℕ, zero, suc, ◌+◌, ◌*◌, ◌/◌, ◌%◌, ◌==◌, if◌then◌else◌, Outcome, done, panic,
}
use gem_os_extension.Log.{Log, log_write}
use gem_os_extension.Fs.{Block, bsize}
use gem_os_extension.Inode.{ndirect, word_at, put_word}

-- The fields of `struct inode` that are on the disk.
pub record Inode : Type 0 where
  pub type : ℕ
  pub major : ℕ
  pub minor : ℕ
  pub nlink : ℕ
  pub size : ℕ
  pub addrs : ℕ → ℕ

-- A dinode has 64 bytes.
abbrev pub ipb : ℕ
ipb = bsize / 64

-- The block of an inode; `inodestart` is the field of the superblock.
abbrev pub iblock : ℕ → ℕ → ℕ
iblock i inodestart = i / ipb + inodestart

-- The first word of an inode in its block.
abbrev pub dip : ℕ → ℕ
dip inum = 16 * (inum % ipb)

-- `memmove` of n addresses to the words from w on.
abbrev pub put_addrs : Block → ℕ → (ℕ → ℕ) → ℕ → Block
put_addrs bytes w addrs zero = bytes
put_addrs bytes w addrs (suc n) = put_word (put_addrs bytes w addrs n) (w + n) (addrs n)

unfoldable pub put_dinode : Block → ℕ → Inode → Block
put_dinode bytes w ip =
    put_addrs
      (put_word
        (put_word (put_word bytes w (ip.type + 65536 * ip.major)) (w + 1)
          (ip.minor + 65536 * ip.nlink))
        (w + 2) ip.size)
      (w + 3) ip.addrs (ndirect + 1)

unfoldable pub iupdate : ℕ → ℕ → Inode → Log Block → Outcome (Log Block)
iupdate inodestart inum ip l =
    let b = iblock inum inodestart in log_write b (put_dinode (l.cache b) (dip inum) ip) l

unfoldable pub as_inode : Block → ℕ → Inode
as_inode bytes w = record {
  type = word_at bytes w % 65536;
  major = word_at bytes w / 65536;
  minor = word_at bytes (w + 1) % 65536;
  nlink = word_at bytes (w + 1) / 65536;
  size = word_at bytes (w + 2);
  addrs = λ i. word_at bytes (w + 3 + i);
}

-- `ilock` of an inode that is not in memory yet.
unfoldable pub ilock_read : ℕ → ℕ → Log Block → Outcome Inode
ilock_read inodestart inum l =
    let ip = as_inode (l.cache (iblock inum inodestart)) (dip inum) in
    if ip.type == 0 then panic else done ip
