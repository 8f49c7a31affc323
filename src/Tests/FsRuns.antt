-- ===== src/Tests/FsRuns.antt =====
-- A small file system: the first 48 of its 100 blocks are in use, and block 45 is the bitmap.
use gem_os_extension.Base.{
  ℕ, ◌<◌, ◌≡◌, refl, ap, ◌∙◌, arith, true, false, not, ◌&&◌, ltb, ◌==◌, if◌then◌else◌,
}
use gem_os_extension.Log.{Log}
use gem_os_extension.Fs.{Block, Superblock, bblock, is_clear, balloc}
use gem_os_extension.Fs.Bits.{passes_below, passes_below_at}
use gem_os_extension.Fs.Bitmap.{IsFs, Allocated, free_in, marked, marked-Allocated}
use gem_os_extension.Fs.Alloc.{HasRoom, Balloc, balloc-Balloc}

abbrev pub small : Superblock
small = record { size = 100; bmapstart = 45 }

abbrev pub blocks : ℕ → Block
blocks b i = if b == 45 && ltb i 6 then 255 else 0

abbrev pub system : (ℕ → Block) → Log Block
system cache = record {
  start = 2;
  outstanding = 1;
  committing = false;
  lh = record { n = 0; block = λ i. 0 };
  cache = cache;
  disk = blocks;
  power = 100;
}

at_45 : (c : ℕ) → c < 100 → bblock c small ≡ 45
at_45 c size = ground (arith, size)

reserved_45 : free_in small blocks 45 ≡ false
unfolding is_clear
reserved_45 = refl

pub blocks-IsFs : IsFs small blocks
unfolding is_clear
blocks-IsFs = record {
  bytes = λ c size i. ground arith;
  reserved = λ c size inside. ap (free_in small blocks) (at_45 c size) ∙ reserved_45;
  boot = refl;
}

system-HasRoom : (cache : ℕ → Block) → HasRoom (system cache)
system-HasRoom cache = record { begun = omega arith; room = omega arith }

balloc-Balloc_example : Balloc small (system blocks) (balloc small (system blocks))
balloc-Balloc_example = balloc-Balloc small (system blocks) blocks-IsFs (system-HasRoom blocks)

free_48 : free_in small blocks 48 ≡ true
unfolding is_clear
free_48 = refl

-- The bits of the six full bytes, by their table.
table_48 : passes_below (λ c. not (free_in small blocks c)) 48 ≡ true
unfolding passes_below is_clear
table_48 = refl

used_below : (c : ℕ) → c < 48 → free_in small blocks c ≡ false
used_below c low =
    let not_free = passes_below_at (λ c. not (free_in small blocks c)) 48 c table_48 low in
    ground (arith, not_free)

small-Allocated : Allocated small blocks (marked small blocks 48) 48
small-Allocated = marked-Allocated small blocks 48 blocks-IsFs (omega arith) free_48 used_below
