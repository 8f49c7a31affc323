-- ===== src/Bcache/Unique.antt =====
-- kernel/bio.c: no two buffers hold the same block, and what `bread` returns.
use gem_os_extension.Base.{
  ℕ, zero, suc, ◌+◌, ◌%◌, ◌^◌, ◌≤◌, ◌≡◌, ◌≢◌, ◌⊎◌, inl, inr, refl, sym, ap, ◌∙◌, subst, List, [],
  ◌∷◌, arith, update, All, All-both, length, ◌==◌, if◌then◌else◌, ◌&&◌, Bool, true, false,
  Bool-cases, none, some, Option-cases, done, panic,
}
use gem_os_extension.Bcache.{
  Bcache, Buf, head, nbuf, bpin, recycle, fill, bread, caches, is_unused, init_from, link_first,
  binit,
}
use gem_os_extension.Bcache.Ring.{IsRing, stacked, binit-IsRing}
use gem_os_extension.Bcache.Scan.{first_of, last_of, bget_lem, IsRing-buf}

abbrev pub In : ℕ → List ℕ → Type 0
In x [] = ⊥
In x (y ∷ ys) = (x ≡ y) ⊎ In x ys

All-In : (P : ℕ → Type 0) (x : ℕ) (xs : List ℕ) → All P xs → In x xs → P x
All-In P x [] h i = absurd i
All-In P x (y ∷ ys) h (inl e) = subst P (sym e) h.0
All-In P x (y ∷ ys) h (inr i) = All-In P x ys h.1 i

module _ {B : Type 0} where
  first_of-some :
      (test : Buf B → Bool) (buf : ℕ → Buf B) (b : ℕ) (xs : List ℕ)
      → first_of test buf xs ≡ some b
      → In b xs × (test (buf b) ≡ true)
  first_of-some test buf b [] e = absurd (ground (arith, e))
  first_of-some test buf b (x ∷ xs) e = elim (Bool-cases (test (buf x))) [
    | inl passed ↦
        let here : x ≡ b = ground (arith, e, passed) in
        (inl (sym here), ap (λ z. test (buf z)) (sym here) ∙ passed)
    | inr failed ↦
        let (i, t) = first_of-some test buf b xs (ground (arith, e, failed)) in (inr i, t)
  ]

  first_of-none :
      (test : Buf B → Bool) (buf : ℕ → Buf B) (xs : List ℕ)
      → first_of test buf xs ≡ none
      → All (λ x. test (buf x) ≡ false) xs
  first_of-none test buf [] e = tt
  first_of-none test buf (x ∷ xs) e =
      (ground (arith, e), first_of-none test buf xs (ground (arith, e)))

  last_of-some :
      (test : Buf B → Bool) (buf : ℕ → Buf B) (b : ℕ) (xs : List ℕ)
      → last_of test buf xs ≡ some b
      → In b xs
  last_of-some test buf b [] e = absurd (ground (arith, e))
  last_of-some test buf b (x ∷ xs) e = elim (Option-cases (last_of test buf xs)) [
    | inl failed ↦ inl (ground (arith, e, failed))
    | inr (y, passed) ↦
        let same : y ≡ b = ground (arith, e, passed) in
        inr (last_of-some test buf b xs (passed ∙ ap some same))
  ]

  last_of-none :
      (test : Buf B → Bool) (buf : ℕ → Buf B) (xs : List ℕ)
      → last_of test buf xs ≡ none
      → All (λ x. test (buf x) ≡ false) xs
  last_of-none test buf [] e = tt
  last_of-none test buf (x ∷ xs) e = elim (Option-cases (last_of test buf xs)) [
    | inl failed ↦ (ground (arith, e, failed), last_of-none test buf xs failed)
    | inr (y, passed) ↦ absurd (ground (arith, e, passed))
  ]

  -- The list is as it should be, of the buffers that there are, and holds no block of a device
  -- twice. Device 0 is that of the buffers that were never used.
  pub record IsCache (c : Bcache B) (xs : List ℕ) : Type 0 where
    pub ring : IsRing c xs
    pub few : length xs ≤ nbuf
    pub unique :
        (i j : ℕ)
        → In i xs
        → In j xs
        → (c.buf i).dev ≢ 0
        → (c.buf i).dev ≡ (c.buf j).dev
        → (c.buf i).blockno ≡ (c.buf j).blockno
        → i ≡ j

  -- What `bread` gives: a valid buffer of the block, with the contents it had where the block was
  -- cached and valid, and those on the disk only where it was not cached or not valid.
  pub record IsRead (dev blockno b : ℕ) (c c' : Bcache B) (xs : List ℕ) : Type 0 where
    pub cache : IsCache c' xs
    pub listed : In b xs
    pub valid : (c'.buf b).valid ≡ true
    pub of_dev : (c'.buf b).dev ≡ dev
    pub of_block : (c'.buf b).blockno ≡ blockno
    pub cached :
        (caches dev blockno (c.buf b) ≡ true) ⊎ All (λ x. caches dev blockno (c.buf x) ≡ false) xs
    pub contents : (c'.buf b).contents ≡ (
        if caches dev blockno (c.buf b) && (c.buf b).valid
        then (c.buf b).contents
        else c.disk blockno)
    pub used :
        (c'.buf b).refcnt
        ≡ (if caches dev blockno (c.buf b) then ((c.buf b).refcnt + 1) % 2 ^ 32 else 1)
    pub disk : c'.disk ≡ c.disk
    pub others : (i : ℕ) → i ≢ b → c'.buf i ≡ c.buf i

  hit-IsRead :
      (dev blockno b : ℕ) (c : Bcache B) (xs : List ℕ)
      → IsCache c xs
      → In b xs
      → caches dev blockno (c.buf b) ≡ true
      → IsRead dev blockno b c (fill b (bpin b c)) xs
  unfolding fill bpin
  hit-IsRead dev blockno b c xs h i e = record {
    cache = record {
      ring = IsRing-buf c (fill b (bpin b c)).buf xs h.ring;
      few = h.few;
      unique = λ j k in_j in_k dev_j same_dev same_block.
          h.unique j k in_j in_k (ground (arith, dev_j)) (ground (arith, same_dev))
            (ground (arith, same_block));
    };
    listed = i;
    valid = ground arith;
    of_dev = ground (arith, e);
    of_block = ground (arith, e);
    cached = inl e;
    used = ground (arith, e);
    disk = refl;
    contents = elim (Bool-cases (c.buf b).valid) [
      | inl was ↦ ground (arith, e, was)
      | inr wasnt ↦
          let same : (c.buf b).blockno ≡ blockno = ground (arith, e) in
          ground (arith, e, wasnt, ap c.disk same)
    ];
    others = λ j other. ground (arith, other);
  }

  miss-IsRead :
      (dev blockno b : ℕ) (c : Bcache B) (xs : List ℕ)
      → IsCache c xs
      → In b xs
      → All (λ x. caches dev blockno (c.buf x) ≡ false) xs
      → IsRead dev blockno b c (fill b (recycle dev blockno b c)) xs
  unfolding fill recycle
  miss-IsRead dev blockno b c xs h i absent = record {
    cache = record {
      ring = IsRing-buf c (fill b (recycle dev blockno b c)).buf xs h.ring;
      few = h.few;
      unique = λ j k in_j in_k dev_j same_dev same_block.
          let not_j = All-In (λ x. caches dev blockno (c.buf x) ≡ false) j xs absent in_j in
          let not_k = All-In (λ x. caches dev blockno (c.buf x) ≡ false) k xs absent in_k in
          elim (Bool-cases (b == j)) [
            | inl at_j ↦ ground (arith, at_j, same_dev, same_block, not_k)
            | inr off_j ↦ elim (Bool-cases (b == k)) [
              | inl at_k ↦ ground (arith, off_j, at_k, same_dev, same_block, not_j)
              | inr off_k ↦
                  h.unique j k in_j in_k (ground (arith, off_j, dev_j))
                    (ground (arith, off_j, off_k, same_dev))
                    (ground (arith, off_j, off_k, same_block))
            ]
          ];
    };
    listed = i;
    valid = ground arith;
    of_dev = ground arith;
    of_block = ground arith;
    cached = inr absent;
    used =
        let not_here = All-In (λ x. caches dev blockno (c.buf x) ≡ false) b xs absent i in
        ground (arith, not_here);
    disk = refl;
    contents =
        let not_here = All-In (λ x. caches dev blockno (c.buf x) ≡ false) b xs absent i in
        ground (arith, not_here);
    others = λ j other. ground (arith, other);
  }

  -- `bread` of a good cache panics only when no buffer holds the block and all of them are in use.
  -- Else it gives a valid buffer for the block: the one that held it, or, where none did, another
  -- one. Its contents are those that the cache had for the block, if they were valid, and those of
  -- the disk in every other case. It has one user more, or one where it was taken for the block. No
  -- block is cached twice after it, and the disk and the other buffers stay as they were.
  pub bread-IsRead :
      (dev blockno : ℕ) (c : Bcache B) (xs : List ℕ)
      → IsCache c xs
      → ((bread dev blockno c ≡ panic)
          × All (λ x. (caches dev blockno (c.buf x) ≡ false) × ((c.buf x).refcnt ≢ 0)) xs)
        ⊎ ((b : ℕ) × (c' : Bcache B) × (bread dev blockno c ≡ done (b, c'))
            × IsRead dev blockno b c c' xs)
  unfolding bread
  bread-IsRead dev blockno c xs h =
      let result = bget_lem dev blockno c xs h.few h.ring in
      elim (Option-cases (first_of (caches dev blockno) c.buf xs)) [
        | inl missing ↦
            let absent = first_of-none (caches dev blockno) c.buf xs missing in
            elim (Option-cases (last_of is_unused c.buf xs)) [
              | inl full ↦ inl (
                rw (result, missing, full) refl,
                All-both (λ x. caches dev blockno (c.buf x) ≡ false)
                    (λ x. is_unused (c.buf x) ≡ false)
                    (λ x. (caches dev blockno (c.buf x) ≡ false) × ((c.buf x).refcnt ≢ 0))
                    (λ x p q. (p, ground (arith, q))) xs absent
                    (last_of-none is_unused c.buf xs full),
              )
              | inr (b, free) ↦ inr (
                b,
                fill b (recycle dev blockno b c),
                rw (result, missing, free) refl,
                miss-IsRead dev blockno b c xs h (last_of-some is_unused c.buf b xs free) absent,
              )
            ]
        | inr (b, hit) ↦
            let (i, e) = first_of-some (caches dev blockno) c.buf b xs hit in
            inr (b, fill b (bpin b c), rw (result, hit) refl, hit-IsRead dev blockno b c xs h i e)
      ]

  init_from-buf : (m b : ℕ) (c : Bcache B) → (init_from m b c).buf ≡ c.buf
  unfolding init_from link_first
  init_from-buf zero b c = refl
  init_from-buf (suc m) b c = init_from-buf m (b + 1) (link_first b c)

  -- The cache that starts out: no buffer was used.
  pub binit-IsCache :
      (c : Bcache B) → ((i : ℕ) → (c.buf i).dev ≡ 0) → IsCache (binit c) (stacked nbuf 0 [])
  unfolding binit
  binit-IsCache c fresh =
      let start = record c { prev = update c.prev head head; next = update c.next head head } in
      let buf = init_from-buf nbuf 0 start in
      record {
        ring = binit-IsRing c;
        few = ground arith;
        unique = λ i j in_i in_j used same_dev same_block.
            absurd (used (ap (λ f. (f i).dev) buf ∙ fresh i));
      }
