-- ===== src/Inode/Update.antt =====
-- kernel/fs.c: `ilock` reads what `iupdate` wrote.
use gem_os_extension.Base.{
  ℕ, zero, suc, ◌+◌, ◌*◌, ◌/◌, ◌%◌, ◌<◌, ◌≤◌, ◌≡◌, ◌≢◌, ◌⊎◌, inl, inr, refl, sym, ap, ◌∙◌, false,
  Bool-cases, ◌==◌, if◌then◌else◌, update_self, update_other, done, panic, arith,
}
use gem_os_extension.Log.{Log, logblocks}
use gem_os_extension.Fs.{Block}
use gem_os_extension.Fs.Bitmap.{logged, log_write-logged}
use gem_os_extension.Inode.{ndirect, word_at, put_word}
use gem_os_extension.Inode.Words.{word_at-put_word, word_at-put_other}
use gem_os_extension.Inode.Dinode.{
  Inode, iblock, dip, put_addrs, put_dinode, iupdate, as_inode, ilock_read,
}

-- Fields of their widths, of an inode that is in use.
pub record IsInode (ip : Inode) : Type 0 where
  pub used : ip.type ≢ 0
  pub type : ip.type < 65536
  pub major : ip.major < 65536
  pub minor : ip.minor < 65536
  pub nlink : ip.nlink < 65536
  pub size : ip.size < 4294967296
  pub addrs : (i : ℕ) → i ≤ ndirect → ip.addrs i < 4294967296

-- The same fields, with the addresses that an inode has.
pub record SameInode (ip ip1 : Inode) : Type 0 where
  pub type : ip1.type ≡ ip.type
  pub major : ip1.major ≡ ip.major
  pub minor : ip1.minor ≡ ip.minor
  pub nlink : ip1.nlink ≡ ip.nlink
  pub size : ip1.size ≡ ip.size
  pub addrs : (i : ℕ) → i ≤ ndirect → ip1.addrs i ≡ ip.addrs i

word_at-put_addrs :
    (bytes : Block) (w n i : ℕ) (addrs : ℕ → ℕ)
    → i < n
    → addrs i < 4294967296
    → word_at (put_addrs bytes w addrs n) (w + i) ≡ addrs i
word_at-put_addrs bytes w zero i addrs low small = absurd (omega (arith, low))
word_at-put_addrs bytes w (suc n) i addrs low small = elim (Bool-cases (i == n)) [
  | inl last ↦
      let same : i ≡ n = ground (arith, last) in
      let value : addrs n < 4294967296 = ground (arith, ap addrs same, small) in
      ap (λ j. word_at (put_addrs bytes w addrs (suc n)) (w + j)) same
      ∙ word_at-put_word (put_addrs bytes w addrs n) (w + n) (addrs n) value
      ∙ ap addrs (sym same)
  | inr other ↦
      let apart : w + n ≢ w + i = ground (arith, other) in
      word_at-put_other (put_addrs bytes w addrs n) (w + n) (w + i) (addrs n) apart
      ∙ word_at-put_addrs bytes w n i addrs (ground (arith, other, low)) small
]

put_addrs-other :
    (bytes : Block) (w n j : ℕ) (addrs : ℕ → ℕ)
    → (j < w) ⊎ (w + n ≤ j)
    → word_at (put_addrs bytes w addrs n) j ≡ word_at bytes j
put_addrs-other bytes w zero j addrs out = refl
put_addrs-other bytes w (suc n) j addrs out =
    let apart : w + n ≢ j = ground (arith, out) in
    word_at-put_other (put_addrs bytes w addrs n) (w + n) j (addrs n) apart
    ∙ put_addrs-other bytes w n j addrs (ground (arith, out))

-- The words of other inodes.
put_dinode-other :
    (bytes : Block) (w j : ℕ) (ip : Inode)
    → (j < w) ⊎ (w + 16 ≤ j)
    → word_at (put_dinode bytes w ip) j ≡ word_at bytes j
unfolding put_dinode
put_dinode-other bytes w j ip out =
    let first = put_word bytes w (ip.type + 65536 * ip.major) in
    let second = put_word first (w + 1) (ip.minor + 65536 * ip.nlink) in
    let apart : w ≢ j = ground (arith, out) in
    let apart1 : w + 1 ≢ j = ground (arith, out) in
    let apart2 : w + 2 ≢ j = ground (arith, out) in
    put_addrs-other (put_word second (w + 2) ip.size) (w + 3) (ndirect + 1) j ip.addrs
      (ground (arith, out))
    ∙ word_at-put_other second (w + 2) j ip.size apart2
    ∙ word_at-put_other first (w + 1) j (ip.minor + 65536 * ip.nlink) apart1
    ∙ word_at-put_other bytes w j (ip.type + 65536 * ip.major) apart

as_inode-put_dinode :
    (bytes : Block) (w : ℕ) (ip : Inode)
    → IsInode ip
    → SameInode ip (as_inode (put_dinode bytes w ip) w)
unfolding put_dinode as_inode
as_inode-put_dinode bytes w ip h =
    let first = put_word bytes w (ip.type + 65536 * ip.major) in
    let second = put_word first (w + 1) (ip.minor + 65536 * ip.nlink) in
    let third = put_word second (w + 2) ip.size in
    let keeps : (j : ℕ)
        → j < w + 3
        → word_at (put_addrs third (w + 3) ip.addrs (ndirect + 1)) j ≡ word_at third j =
      λ j low. put_addrs-other third (w + 3) (ndirect + 1) j ip.addrs (inl low) in
    let small0 : ip.type + 65536 * ip.major < 4294967296 = omega (arith, h.type, h.major) in
    let small1 : ip.minor + 65536 * ip.nlink < 4294967296 = omega (arith, h.minor, h.nlink) in
    let word0 =
      keeps w (omega arith)
      ∙ word_at-put_other second (w + 2) w ip.size (ground arith)
      ∙ word_at-put_other first (w + 1) w (ip.minor + 65536 * ip.nlink) (ground arith)
      ∙ word_at-put_word bytes w (ip.type + 65536 * ip.major) small0 in
    let word1 =
      keeps (w + 1) (omega arith)
      ∙ word_at-put_other second (w + 2) (w + 1) ip.size (ground arith)
      ∙ word_at-put_word first (w + 1) (ip.minor + 65536 * ip.nlink) small1 in
    record {
      type = ap (λ x. x % 65536) word0 ∙ omega (arith, h.type);
      major = ap (λ x. x / 65536) word0 ∙ omega (arith, h.type);
      minor = ap (λ x. x % 65536) word1 ∙ omega (arith, h.minor);
      nlink = ap (λ x. x / 65536) word1 ∙ omega (arith, h.minor);
      size = keeps (w + 2) (omega arith) ∙ word_at-put_word second (w + 2) ip.size h.size;
      addrs = λ i low.
          word_at-put_addrs third (w + 3) (ndirect + 1) i ip.addrs (omega (arith, low))
            (h.addrs i low);
    }

-- `iupdate` of an inode in use whose fields have their widths, in a transaction that has space,
-- returns, and after it `ilock` reads the same inode from the disk; the words of every other inode
-- are as they were.
pub ilock_read-iupdate :
    (inodestart inum : ℕ) (ip : Inode) (l : Log Block)
    → IsInode ip
    → l.lh.n < logblocks
    → 1 ≤ l.outstanding
    → (l1 : Log Block) × (ip1 : Inode) × (iupdate inodestart inum ip l ≡ done l1)
      × (ilock_read inodestart inum l1 ≡ done ip1)
      × SameInode ip ip1
      × ((other i : ℕ)
          → other ≢ inum
          → i < 16
          → word_at (l1.cache (iblock other inodestart)) (dip other + i)
            ≡ word_at (l.cache (iblock other inodestart)) (dip other + i))
unfolding iupdate ilock_read
ilock_read-iupdate inodestart inum ip l h space begun =
    let b = iblock inum inodestart in
    let bytes = put_dinode (l.cache b) (dip inum) ip in
    let l1 = logged b bytes l in
    let block : l1.cache b ≡ bytes = update_self l.cache b bytes in
    let ip1 = as_inode bytes (dip inum) in
    let same = as_inode-put_dinode (l.cache b) (dip inum) ip h in
    let used : ip1.type == 0 ≡ false = ground (arith, same.type, h.used) in
    (
      l1,
      ip1,
      (log_write-logged b bytes l space begun).0,
      ap
            (λ (x : Block).
              let ip2 = as_inode x (dip inum) in if ip2.type == 0 then panic else done ip2)
            block
          ∙ rw used refl,
      same,
      λ other i apart low. elim (Bool-cases (iblock other inodestart == b)) [
        | inr elsewhere ↦
            let away : b ≢ iblock other inodestart = ground (arith, elsewhere) in
            ap (λ x. word_at x (dip other + i))
              (update_other l.cache b bytes (iblock other inodestart) away)
        | inl here ↦
            let at : iblock other inodestart ≡ b = ground (arith, here) in
            let out : (dip other + i < dip inum) ⊎ (dip inum + 16 ≤ dip other + i) =
              ground (arith, at, apart, low) in
            ap (λ x. word_at (l1.cache x) (dip other + i)) at
            ∙ ap (λ x. word_at x (dip other + i)) block
            ∙ put_dinode-other (l.cache b) (dip inum) (dip other + i) ip out
            ∙ ap (λ x. word_at (l.cache x) (dip other + i)) (sym at)
      ],
    )
