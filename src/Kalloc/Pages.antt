-- ===== src/Kalloc/Pages.antt =====
-- kernel/kalloc.c: which pages are free.
use gem_os_extension.Base.{
  ℕ, zero, suc, ◌+◌, ◌-◌, ◌/◌, ◌%◌, ◌<◌, ◌≤◌, ◌≡◌, ◌≢◌, ◌↔◌, subst, some, List, [], ◌∷◌, arith,
  length, All, All-map, Distinct, Bool-cases, inl, inr, leb, Outcome, done,
}
use gem_os_extension.Kalloc.{pgsize, phystop, pgroundup, kfree, kalloc, free_from, freerange, kinit}

-- A page that the allocator may hand out.
pub record IsPage (kernel_end pa : ℕ) : Type 0 where
  pub aligned : pa % pgsize ≡ 0
  pub above : kernel_end ≤ pa
  pub below : pa < phystop

-- The free pages are such pages, and no page is free twice.
pub record IsFree (kernel_end : ℕ) (freelist : List ℕ) : Type 0 where
  pub pages : All (IsPage kernel_end) freelist
  pub apart : Distinct freelist

-- `kfree` returns exactly if it is given a page, which then is the first to be handed out; it
-- does not on any other address.
pub kfree-IsPage :
    (kernel_end pa : ℕ) (freelist : List ℕ)
    → (kfree kernel_end pa freelist ≡ done (pa ∷ freelist)) ↔ IsPage kernel_end pa
unfolding kfree
kfree-IsPage kernel_end pa freelist = ((λ e. ground arith), (λ p. ground arith))

-- A page that was not free keeps the free list sound.
pub kfree-IsFree :
    (kernel_end pa : ℕ) (freelist : List ℕ)
    → IsFree kernel_end freelist
    → IsPage kernel_end pa
    → All (λ y. pa ≢ y) freelist
    → IsFree kernel_end (pa ∷ freelist)
kfree-IsFree kernel_end pa freelist f p off = record {
  pages = (p, f.pages);
  apart = (off, f.apart);
}

-- A page that `kalloc` hands out is a page, and is not free any more.
pub kalloc-IsFree :
    (kernel_end pa : ℕ) (freelist rest : List ℕ)
    → IsFree kernel_end freelist
    → kalloc freelist ≡ (some pa, rest)
    → IsPage kernel_end pa × All (λ y. pa ≢ y) rest × IsFree kernel_end rest
unfolding kalloc
kalloc-IsFree kernel_end pa [] rest f e = absurd (ground arith)
kalloc-IsFree kernel_end pa (x ∷ xs) rest f e =
    let same : (x ≡ pa) × (xs ≡ rest) = ground (arith, e) in
    subst (λ a. IsPage kernel_end a × All (λ y. a ≢ y) rest × IsFree kernel_end rest) same.0
      (subst (λ l. IsPage kernel_end x × All (λ y. x ≢ y) l × IsFree kernel_end l) same.1
        (f.pages.0, f.apart.0, record { pages = f.pages.1; apart = f.apart.1 }))

-- The loop of `freerange` frees every page from `p` to the end, if it has fuel for them.
record Frees (kernel_end p pa_end n : ℕ) (freelist : List ℕ) (r : Outcome (List ℕ)) : Type 0 where
  result : List ℕ
  returns : r ≡ done result
  free : IsFree kernel_end result
  count : length result ≡ length freelist + n

free_from-Frees :
    (kernel_end fuel p pa_end : ℕ) (freelist : List ℕ)
    → p % pgsize ≡ 0
    → kernel_end ≤ p
    → pa_end ≤ phystop
    → (pa_end - p) / pgsize < fuel
    → IsFree kernel_end freelist
    → All (λ y. y < p) freelist
    → Frees kernel_end p pa_end
        ((pa_end - p) / pgsize)
        freelist
        (free_from kernel_end fuel p pa_end freelist)
unfolding free_from
free_from-Frees kernel_end zero p pa_end freelist al ab be fu f lo = absurd (omega arith)
free_from-Frees kernel_end (suc fuel) p pa_end freelist al ab be fu f lo =
    elim (Bool-cases (leb (p + pgsize) pa_end)) [
      | inl more ↦
          let fits : p + pgsize ≤ pa_end = ground arith in
          let page : IsPage kernel_end p = record {
            aligned = al;
            above = ab;
            below = omega arith;
          } in
          let freed = (kfree-IsPage kernel_end p freelist).1 page in
          let off : All (λ y. p ≢ y) freelist =
            All-map (λ y. y < p) (λ y. p ≢ y) (λ y h. omega arith) freelist lo in
          let ih =
            free_from-Frees kernel_end fuel (p + pgsize) pa_end (p ∷ freelist) (omega arith)
              (omega arith) be (omega arith) (kfree-IsFree kernel_end p freelist f page off)
              (
                omega arith,
                All-map (λ y. y < p) (λ y. y < p + pgsize) (λ y h. omega arith) freelist lo,
              ) in
          record {
            result = ih.result;
            returns = ground (arith, more, freed, ih.returns);
            free = ih.free;
            count = ground (arith, ih.count, more);
          }
      | inr stop ↦ record {
        result = freelist;
        returns = ground (arith, stop);
        free = f;
        count = ground (arith, stop);
      }
    ]

-- Where the first page behind the kernel does not start above PHYSTOP, booting frees the memory
-- between the kernel's end and the top in whole pages, each once, without a panic.
pub kinit-IsFree :
    (kernel_end : ℕ)
    → pgroundup kernel_end ≤ phystop
    → (l : List ℕ) × (kinit kernel_end ≡ done l)
      × IsFree kernel_end l
      × (length l ≡ (phystop - pgroundup kernel_end) / pgsize)
unfolding kinit freerange
kinit-IsFree kernel_end h =
    let fuel : ℕ = suc (phystop / pgsize) in
    let r =
      free_from-Frees kernel_end fuel (pgroundup kernel_end) phystop [] (omega arith) (omega arith)
        (omega arith) (omega arith) (record { pages = tt; apart = tt }) tt in
    (r.result, r.returns, r.free, omega (arith, r.count))
