-- ===== src/Disk/Queue/Chain.antt =====
-- Linked lists of requests in memory, and what a write to one page does to them.
use gem_os_extension.Base.{
  ℕ, ◌≡◌, refl, sym, ◌∙◌, ◌≢◌, List, [], ◌∷◌, ◌++◌, arith, update, All, All-left, All-right,
  All-append, last_or, Distinct,
}
use gem_os_extension.Disk.Queue.{DiskRequest}

-- The pages that the list at `p` runs through, in order.
abbrev pub Chain : (ℕ → DiskRequest) → ℕ → List ℕ → Type 0
Chain mem p [] = p ≡ 0
Chain mem p (a ∷ rest) = (p ≡ a) × (a ≢ 0) × Chain mem (mem a).next rest

-- A write to a page off the list leaves the list as it is.
pub Chain-update :
    (mem : ℕ → DiskRequest) (p a : ℕ) (r : DiskRequest) (xs : List ℕ)
    → All (λ y. a ≢ y) xs
    → Chain mem p xs
    → Chain (update mem a r) p xs
Chain-update mem p a r [] off c = c
Chain-update mem p a r (x ∷ xs) off c =
    ground (arith, Chain-update mem (mem x).next a r xs off.1 c.2)

pub All-last : (x a : ℕ) (xs : List ℕ) → (x ≢ a) → All (λ y. x ≢ y) xs → x ≢ last_or a xs
All-last x a [] h hs = h
All-last x a (y ∷ ys) h hs = All-last x y ys hs.0 hs.1

pub Distinct-middle :
    (xs ys : List ℕ) (b : ℕ)
    → Distinct (xs ++ b ∷ ys)
    → Distinct (xs ++ ys) × All (λ y. b ≢ y) (xs ++ ys)
Distinct-middle [] ys b h = (h.1, h.0)
Distinct-middle (x ∷ xs) ys b h =
    let ih : Distinct (xs ++ ys) × All (λ y. b ≢ y) (xs ++ ys) = Distinct-middle xs ys b h.1 in
    let r : All (λ y. x ≢ y) (b ∷ ys) = All-right (λ y. x ≢ y) xs (b ∷ ys) h.0 in
    (
      (All-append (λ y. x ≢ y) xs ys (All-left (λ y. x ≢ y) xs (b ∷ ys) h.0) r.1, ih.0),
      ((λ e. r.0 (sym e)), ih.1),
    )

-- The page that ends a list's first part is not in its second part.
pub last_apart : (x : ℕ) (xs ys : List ℕ) → Distinct (x ∷ xs ++ ys) → All (λ y. last_or x xs ≢ y) ys
last_apart x [] ys h = h.0
last_apart x (z ∷ xs) ys h = last_apart z xs ys h.1

-- The end of the list's first part is made to point past the page `b`.
pub Chain-unlink :
    (mem : ℕ → DiskRequest) (p x b : ℕ) (xs ys : List ℕ)
    → Distinct (x ∷ xs ++ b ∷ ys)
    → Chain mem p (x ∷ xs ++ b ∷ ys)
    → Chain
        (update mem (last_or x xs) (record (mem (last_or x xs)) { next = (mem b).next }))
        p
        (x ∷ xs ++ ys)
Chain-unlink mem p x b [] ys apart c = ground (
  arith,
  Chain-update mem (mem b).next x (record (mem x) { next = (mem b).next }) ys apart.0.1 c.2.2,
)
Chain-unlink mem p x b (z ∷ xs) ys apart c =
    let l : ℕ = last_or z xs in
    let ne : x ≢ l = All-last x z xs apart.0.0 (All-left (λ y. x ≢ y) xs (b ∷ ys) apart.0.1) in
    ground (arith, Chain-unlink mem (mem x).next z b xs ys apart.1 c.2)

-- No page of a list is null, its last one included.
pub Chain-last :
    (mem : ℕ → DiskRequest) (p x : ℕ) (xs : List ℕ) → Chain mem p (x ∷ xs) → last_or x xs ≢ 0
Chain-last mem p x [] c = c.1
Chain-last mem p x (y ∷ xs) c = Chain-last mem (mem x).next y xs c.2

pub Chain-last_part :
    (mem : ℕ → DiskRequest) (p x : ℕ) (xs ys : List ℕ)
    → Chain mem p (x ∷ xs ++ ys)
    → last_or x xs ≢ 0
Chain-last_part mem p x [] ys c = c.1
Chain-last_part mem p x (y ∷ xs) ys c = Chain-last_part mem (mem x).next y xs ys c.2

-- Where a list of distinct pages is cut at a page does not depend on how it is written.
pub split_unique :
    (b : ℕ) (xs ys xs' ys' : List ℕ)
    → Distinct (xs ++ b ∷ ys)
    → xs ++ b ∷ ys ≡ xs' ++ b ∷ ys'
    → (xs ≡ xs') × (ys ≡ ys')
split_unique b [] ys [] ys' h e = ground arith
split_unique b [] ys (z ∷ zs) ys' h e =
    let hit : All (λ y. b ≢ y) (zs ++ b ∷ ys') = ground (arith, h.0) in
    absurd ((All-right (λ y. b ≢ y) zs (b ∷ ys') hit).0 refl)
split_unique b (x ∷ xs) ys [] ys' h e =
    let same : x ≡ b = ground arith in absurd ((All-right (λ y. x ≢ y) xs (b ∷ ys) h.0).0 same)
split_unique b (x ∷ xs) ys (z ∷ zs) ys' h e = ground (arith, split_unique b xs ys zs ys' h.1)

pub Chain-middle :
    (mem : ℕ → DiskRequest) (p b : ℕ) (xs ys : List ℕ)
    → Chain mem p (xs ++ b ∷ ys)
    → (p ≢ 0) × (b ≢ 0)
Chain-middle mem p b [] ys c = ((λ e. c.1 (sym c.0 ∙ e)), c.1)
Chain-middle mem p b (x ∷ xs) ys c =
    ((λ e. c.1 (sym c.0 ∙ e)), (Chain-middle mem (mem x).next b xs ys c.2).1)
