-- ===== src/Tests/BcacheRuns.antt =====
-- The cache after `binit`, and its first read.
use gem_os_extension.Base.{
  ℕ, ◌≡◌, ◌≢◌, ◌⊎◌, refl, List, [], ◌∷◌, ◌++◌, false, true, done, panic, All,
}
use gem_os_extension.Bcache.{
  Bcache, nbuf, binit, bget, bread, brelse, bunpin, recycle, caches, init_from, link_first,
  scan_next, scan_prev,
}
use gem_os_extension.Bcache.Ring.{IsRing, stacked, binit-IsRing}
use gem_os_extension.Bcache.Scan.{left, brelse-IsRing}
use gem_os_extension.Bcache.Unique.{IsCache, IsRead, bread-IsRead, binit-IsCache}

-- The memory when the machine starts, and a disk with its number in each block.
abbrev blank : Bcache ℕ
blank = record {
  next = λ i. 0;
  prev = λ i. 0;
  buf = λ i. record { valid = false; dev = 0; blockno = 0; refcnt = 0; contents = 0 };
  disk = λ b. b;
}

abbrev order : List ℕ
order = stacked nbuf 0 []

blank-IsCache : IsCache (binit blank) order
blank-IsCache = binit-IsCache blank (λ i. refl)

-- The first buffer that is taken is the first that `binit` has linked in.
first_taken : bget 1 33 (binit blank) ≡ done (0, recycle 1 33 0 (binit blank))
unfolding bget scan_next scan_prev binit init_from link_first
first_taken = refl

bread-IsRead_example :
    ((bread 1 33 (binit blank) ≡ panic)
      × All
          (λ x. (caches 1 33 ((binit blank).buf x) ≡ false) × (((binit blank).buf x).refcnt ≢ 0))
          order)
    ⊎ ((b : ℕ) × (c' : Bcache ℕ) × (bread 1 33 (binit blank) ≡ done (b, c'))
        × IsRead 1 33 b (binit blank) c' order)
bread-IsRead_example = bread-IsRead 1 33 (binit blank) order blank-IsCache

-- The buffer 27, the third of the list, with one user.
abbrev busy : Bcache ℕ
busy = recycle 1 33 27 (binit blank)

busy-IsRing : IsRing busy (29 ∷ 28 ∷ 27 ∷ stacked 27 0 [])
unfolding recycle
busy-IsRing = record { linked = (binit-IsRing blank).linked; apart = (binit-IsRing blank).apart }

brelse-IsRing_example :
    (c' : Bcache ℕ) × (brelse true 27 busy ≡ done c')
    × (c'.buf ≡ (bunpin 27 busy).buf)
    × (((left 27 busy ≡ 0) × IsRing c' (27 ∷ (29 ∷ 28 ∷ []) ++ stacked 27 0 []))
        ⊎ ((left 27 busy ≢ 0) × IsRing c' ((29 ∷ 28 ∷ []) ++ 27 ∷ stacked 27 0 [])))
brelse-IsRing_example = brelse-IsRing 27 busy (29 ∷ 28 ∷ []) (stacked 27 0 []) busy-IsRing
