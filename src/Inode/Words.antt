-- ===== src/Inode/Words.antt =====
-- kernel/fs.c: the words of an indirect block.
use gem_os_extension.Base.{ℕ, ◌<◌, ◌≡◌, ◌≢◌, refl, arith}
use gem_os_extension.Fs.{Block}
use gem_os_extension.Inode.{word_at, put_word}

pub word_at-put_word :
    (bytes : Block) (i v : ℕ) → v < 4294967296 → word_at (put_word bytes i v) i ≡ v
unfolding word_at put_word
word_at-put_word bytes i v small = ground (arith, small)

pub word_at-put_other :
    (bytes : Block) (i j v : ℕ) → i ≢ j → word_at (put_word bytes i v) j ≡ word_at bytes j
unfolding word_at put_word
word_at-put_other bytes i j v other = ground (arith, other)

pub word_at-zero : (i : ℕ) → word_at (λ k. 0) i ≡ 0
unfolding word_at
word_at-zero i = refl
