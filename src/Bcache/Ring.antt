-- ===== src/Bcache/Ring.antt =====
-- kernel/bio.c: the doubly linked list of the buffers, and what linking and unlinking do to it.
use gem_os_extension.Base.{
  ℕ, zero, suc, ◌+◌, ◌<◌, ◌≤◌, ◌≡◌, ◌≢◌, sym, subst, List, [], ◌∷◌, ◌++◌, arith, update, All,
  All-left, All-right, All-append, All-map, last_or, Distinct,
}
use gem_os_extension.Disk.Queue.Chain.{All-last, Distinct-middle}
use gem_os_extension.Bcache.{Bcache, head, nbuf, link_first, unlink, init_from, binit}

-- From `a` the links run through the list and to the head, and back.
abbrev pub Linked : (ℕ → ℕ) → (ℕ → ℕ) → ℕ → List ℕ → Type 0
Linked next prev a [] = (next a ≡ head) × (prev head ≡ a)
Linked next prev a (x ∷ xs) = (next a ≡ x) × (prev x ≡ a) × Linked next prev x xs

Linked-update_next :
    (next prev : ℕ → ℕ) (a : ℕ) (xs : List ℕ) (i v : ℕ)
    → i ≢ a
    → All (λ y. i ≢ y) xs
    → Linked next prev a xs
    → Linked (update next i v) prev a xs
Linked-update_next next prev a [] i v off offs l = ground (arith, off, l.0, l.1)
Linked-update_next next prev a (x ∷ xs) i v off offs l =
    (ground (arith, off, l.0), l.1, Linked-update_next next prev x xs i v offs.0 offs.1 l.2)

Linked-update_prev :
    (next prev : ℕ → ℕ) (a : ℕ) (xs : List ℕ) (i v : ℕ)
    → i ≢ head
    → All (λ y. i ≢ y) xs
    → Linked next prev a xs
    → Linked next (update prev i v) a xs
Linked-update_prev next prev a [] i v off offs l = ground (arith, off, l.0, l.1)
Linked-update_prev next prev a (x ∷ xs) i v off offs l =
    (l.0, ground (arith, offs.0, l.1), Linked-update_prev next prev x xs i v off offs.1 l.2)

abbrev first_or : ℕ → List ℕ → ℕ
first_or d [] = d
first_or d (x ∷ xs) = x

Linked-prev :
    (next prev : ℕ → ℕ) (a b : ℕ) (xs ys : List ℕ)
    → Linked next prev a (xs ++ b ∷ ys)
    → prev b ≡ last_or a xs
Linked-prev next prev a b [] ys l = l.1
Linked-prev next prev a b (x ∷ xs) ys l = Linked-prev next prev x b xs ys l.2

Linked-next :
    (next prev : ℕ → ℕ) (a b : ℕ) (xs ys : List ℕ)
    → Linked next prev a (xs ++ b ∷ ys)
    → next b ≡ first_or head ys
Linked-next next prev a b [] [] l = l.2.0
Linked-next next prev a b [] (y ∷ ys) l = l.2.0
Linked-next next prev a b (x ∷ xs) ys l = Linked-next next prev x b xs ys l.2

All-first : (x : ℕ) (ys : List ℕ) → x ≢ head → All (λ y. x ≢ y) ys → x ≢ first_or head ys
All-first x [] h hs = h
All-first x (y ∷ ys) h hs = hs.0

All-middle : (P : ℕ → Type 0) (xs ys : List ℕ) (b : ℕ) → All P (xs ++ b ∷ ys) → All P (xs ++ ys)
All-middle P xs ys b h = All-append P xs ys (All-left P xs (b ∷ ys) h) (All-right P xs (b ∷ ys) h).1

-- The list without one of its buffers: p and n are that buffer's links.
Linked-unlink :
    (next prev : ℕ → ℕ) (a b p n : ℕ) (xs ys : List ℕ)
    → p ≡ last_or a xs
    → n ≡ first_or head ys
    → All (λ y. head ≢ y) (xs ++ b ∷ ys)
    → Distinct (a ∷ xs ++ b ∷ ys)
    → Linked next prev a (xs ++ b ∷ ys)
    → Linked (update next p n) (update prev n p) a (xs ++ ys)
Linked-unlink next prev a b p n [] [] ep en off apart l = ground (arith, ep, en)
Linked-unlink next prev a b p n [] (y ∷ ys) ep en off apart l =
    let ne_head : n ≢ head = ground (arith, en, off.1.0) in
    let ne_a : p ≢ y = ground (arith, ep, apart.0.1.0) in
    let rest : Linked next prev y ys = l.2.2 in
    let offs_p : All (λ z. p ≢ z) ys = subst (λ q. All (λ z. q ≢ z) ys) (sym ep) (apart.0.1.1) in
    let offs_n : All (λ z. n ≢ z) ys = subst (λ q. All (λ z. q ≢ z) ys) (sym en) (apart.1.1.0) in
    (
      ground (arith, ep, en),
      ground (arith, ep, en),
      Linked-update_prev (update next p n) prev y ys n p ne_head offs_n
          (Linked-update_next next prev y ys p n ne_a offs_p rest),
    )
Linked-unlink next prev a b p n (x ∷ xs) ys ep en off apart l =
    let ne_p : a ≢ p =
      subst (λ q. a ≢ q) (sym ep)
        (All-last a x xs apart.0.0 (All-left (λ z. a ≢ z) xs (b ∷ ys) apart.0.1)) in
    let ne_n : x ≢ n =
      subst (λ q. x ≢ q) (sym en)
        (All-first x ys (λ e. off.0 (sym e)) (All-right (λ z. x ≢ z) xs (b ∷ ys) apart.1.0).1) in
    (
      ground (arith, ne_p, l.0),
      ground (arith, ne_n, l.1),
      Linked-unlink next prev x b p n xs ys ep en off.1 apart.1 l.2,
    )

Linked-link_first :
    (next prev : ℕ → ℕ) (b n x : ℕ) (xs : List ℕ)
    → n ≡ x
    → b ≢ head
    → All (λ y. b ≢ y) (x ∷ xs)
    → Distinct (head ∷ x ∷ xs)
    → Linked next prev head (x ∷ xs)
    → Linked (update (update next b n) head b) (update (update prev b head) n b) head (b ∷ x ∷ xs)
Linked-link_first next prev b n x xs e off offs apart l =
    let n_head : n ≢ head = ground (arith, e, apart.0.0) in
    let x_head : head ≢ x = apart.0.0 in
    let offs_n : All (λ z. n ≢ z) xs = subst (λ q. All (λ z. q ≢ z) xs) (sym e) apart.1.0 in
    let rest =
      Linked-update_prev (update (update next b n) head b) (update prev b head) x xs n b n_head
        offs_n
        (Linked-update_prev (update (update next b n) head b) prev x xs b head off offs.1 (
          Linked-update_next (update next b n) prev x xs head b x_head apart.0.1
            (Linked-update_next next prev x xs b n offs.0 offs.1 l.2))) in
    (ground arith, ground (arith, e, offs.0), (ground (arith, e, off), ground (arith, e), rest))

module _ {B : Type 0} where
  -- The list of the cache holds these buffers, the one used last at its front, and none twice.
  pub record IsRing (c : Bcache B) (xs : List ℕ) : Type 0 where
    pub linked : Linked c.next c.prev head xs
    pub apart : Distinct (head ∷ xs)

  pub link_first-IsRing :
      (b : ℕ) (c : Bcache B) (xs : List ℕ)
      → b ≢ head
      → All (λ y. b ≢ y) xs
      → IsRing c xs
      → IsRing (link_first b c) (b ∷ xs)
  unfolding link_first
  link_first-IsRing b c [] off offs r = record {
    linked = ground (arith, off, r.linked.0, r.linked.1);
    apart = ((λ e. off (sym e), tt), (tt, tt));
  }
  link_first-IsRing b c (x ∷ xs) off offs r =
      let first : c.next head ≡ x = r.linked.0 in
      record {
        linked =
            Linked-link_first c.next c.prev b (c.next head) x xs first off offs r.apart r.linked;
        apart = ((λ e. off (sym e), r.apart.0), (offs, r.apart.1));
      }

  pub unlink-IsRing :
      (b : ℕ) (c : Bcache B) (xs ys : List ℕ)
      → IsRing c (xs ++ b ∷ ys)
      → IsRing (unlink b c) (xs ++ ys)
  unfolding unlink
  unlink-IsRing b c xs ys r =
      let p = c.prev b in
      let n = c.next b in
      let back : p ≡ update c.prev n p b = ground arith in
      let kept = Distinct-middle xs ys b r.apart.1 in
      let linked =
        Linked-unlink c.next c.prev head b p n xs ys
          (Linked-prev c.next c.prev head b xs ys r.linked)
          (Linked-next c.next c.prev head b xs ys r.linked) r.apart.0 r.apart r.linked in
      record {
        linked =
            subst (λ q. Linked (update c.next q n) (update c.prev n p) head (xs ++ ys)) back linked;
        apart = (All-middle (λ y. head ≢ y) xs ys b r.apart.0, kept.0);
      }

-- b + m - 1 down to b, and then xs.
abbrev pub stacked : ℕ → ℕ → List ℕ → List ℕ
stacked zero b xs = xs
stacked (suc m) b xs = stacked m (b + 1) (b ∷ xs)

module _ {B : Type 0} where
  init_from-IsRing :
      (m b : ℕ) (c : Bcache B) (xs : List ℕ)
      → b + m ≤ head
      → All (λ y. y < b) xs
      → IsRing c xs
      → IsRing (init_from m b c) (stacked m b xs)
  unfolding init_from
  init_from-IsRing zero b c xs fits below r = r
  init_from-IsRing (suc m) b c xs fits below r =
      init_from-IsRing m (b + 1) (link_first b c) (b ∷ xs) (ground (arith, fits))
        (ground arith, All-map (λ y. y < b) (λ y. y < b + 1) (λ y lt. ground (arith, lt)) xs below)
        (link_first-IsRing b c xs (ground (arith, fits))
          (All-map (λ y. y < b) (λ y. b ≢ y) (λ y lt e. ground (arith, lt, e)) xs below) r)

  -- Whatever the memory held, after `binit` the list holds each of the 30 buffers once.
  pub binit-IsRing : (c : Bcache B) → IsRing (binit c) (stacked nbuf 0 [])
  unfolding binit
  binit-IsRing c =
      init_from-IsRing nbuf 0
        (record c { prev = update c.prev head head; next = update c.next head head }) []
        (ground arith) tt (record { linked = ground arith; apart = (tt, tt) })
