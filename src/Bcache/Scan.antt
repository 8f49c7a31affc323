-- ===== src/Bcache/Scan.antt =====
-- kernel/bio.c: the searches of `bget` along the list, and the operations on it.
use gem_os_extension.Base.{
  ℕ, zero, suc, ◌+◌, ◌-◌, ◌%◌, ◌^◌, ◌<◌, ◌≤◌, ◌≡◌, ◌≢◌, ◌⊎◌, inl, inr, refl, sym, ap, ◌∙◌, subst,
  List, [], ◌∷◌, ◌++◌, arith, All, All-right, length, ◌==◌, if◌then◌else◌, Bool, true, Bool-cases,
  Option, none, some, Option-cases, Outcome, done, panic,
}
use gem_os_extension.Disk.Queue.Chain.{Distinct-middle}
use gem_os_extension.Bcache.{
  Bcache, Buf, head, nbuf, link_first, unlink, scan_next, scan_prev, bget, bpin, bunpin, recycle,
  caches, is_unused, brelse,
}
use gem_os_extension.Bcache.Ring.{Linked, IsRing, link_first-IsRing, unlink-IsRing}

abbrev pub or_else : Option ℕ → Option ℕ → Option ℕ
or_else (some x) o = some x
or_else none o = o

or_else-none : (o : Option ℕ) → or_else o none ≡ o
or_else-none (some x) = refl
or_else-none none = refl

-- The list backwards, onto another one.
abbrev pub rev_onto : List ℕ → List ℕ → List ℕ
rev_onto [] zs = zs
rev_onto (x ∷ xs) zs = rev_onto xs (x ∷ zs)

length-rev_onto : (xs zs : List ℕ) → length (rev_onto xs zs) ≡ length xs + length zs
length-rev_onto [] zs = ground arith
length-rev_onto (x ∷ xs) zs = ground (arith, length-rev_onto xs (x ∷ zs))

All-rev_onto : (P : ℕ → Type 0) (xs zs : List ℕ) → All P xs → All P zs → All P (rev_onto xs zs)
All-rev_onto P [] zs h k = k
All-rev_onto P (x ∷ xs) zs h k = All-rev_onto P xs (x ∷ zs) h.1 (h.0, k)

-- The links `prev` from p on run through the list to the head.
abbrev Back : (ℕ → ℕ) → ℕ → List ℕ → Type 0
Back prev p [] = p ≡ head
Back prev p (z ∷ zs) = (p ≡ z) × Back prev (prev z) zs

Back-rev_onto :
    (next prev : ℕ → ℕ) (a : ℕ) (xs zs : List ℕ)
    → Linked next prev a xs
    → Back prev a zs
    → Back prev (prev head) (rev_onto xs zs)
Back-rev_onto next prev a [] zs l back = subst (λ p. Back prev p zs) (sym l.1) back
Back-rev_onto next prev a (x ∷ xs) zs l back =
    Back-rev_onto next prev x xs (x ∷ zs) l.2 (refl, subst (λ p. Back prev p zs) (sym l.1) back)

module _ {B : Type 0} where
  -- The first and the last buffer on a list that pass the test.
  abbrev pub first_of : (Buf B → Bool) → (ℕ → Buf B) → List ℕ → Option ℕ
  first_of test buf [] = none
  first_of test buf (x ∷ xs) =
      let rest = first_of test buf xs in if test (buf x) then some x else rest

  abbrev pub last_of : (Buf B → Bool) → (ℕ → Buf B) → List ℕ → Option ℕ
  last_of test buf [] = none
  last_of test buf (x ∷ xs) = or_else (last_of test buf xs) (if test (buf x) then some x else none)

  scan_next_lem :
      (fuel : ℕ) (test : Buf B → Bool) (a : ℕ) (c : Bcache B) (xs : List ℕ)
      → length xs < fuel
      → All (λ y. head ≢ y) xs
      → Linked c.next c.prev a xs
      → scan_next fuel test (c.next a) c ≡ done (first_of test c.buf xs)
  unfolding scan_next
  scan_next_lem zero test a c xs enough off l = absurd (ground (arith, enough))
  scan_next_lem (suc fuel) test a c [] enough off l = ground (arith, l.0)
  scan_next_lem (suc fuel) test a c (x ∷ xs) enough off l =
      let rest = scan_next_lem fuel test x c xs (ground (arith, enough)) off.1 l.2 in
      subst (λ z. scan_next (suc fuel) test z c ≡ done (first_of test c.buf (x ∷ xs))) (sym l.0)
        (ground (arith, rest, off.0))

  first_of-rev_onto :
      (test : Buf B → Bool) (buf : ℕ → Buf B) (xs zs : List ℕ)
      → first_of test buf (rev_onto xs zs) ≡ or_else (last_of test buf xs) (first_of test buf zs)
  first_of-rev_onto test buf [] zs = refl
  first_of-rev_onto test buf (x ∷ xs) zs = elim (Option-cases (last_of test buf xs)) [
    | inl e ↦ ground (arith, e, first_of-rev_onto test buf xs (x ∷ zs))
    | inr (y, e) ↦ ground (arith, e, first_of-rev_onto test buf xs (x ∷ zs))
  ]

  scan_prev-Back :
      (fuel : ℕ) (test : Buf B → Bool) (p : ℕ) (c : Bcache B) (zs : List ℕ)
      → length zs < fuel
      → All (λ y. head ≢ y) zs
      → Back c.prev p zs
      → scan_prev fuel test p c ≡ done (first_of test c.buf zs)
  unfolding scan_prev
  scan_prev-Back zero test p c zs enough off l = absurd (ground (arith, enough))
  scan_prev-Back (suc fuel) test p c [] enough off l = ground (arith, l)
  scan_prev-Back (suc fuel) test p c (z ∷ zs) enough off l =
      let rest = scan_prev-Back fuel test (c.prev z) c zs (ground (arith, enough)) off.1 l.1 in
      subst (λ q. scan_prev (suc fuel) test q c ≡ done (first_of test c.buf (z ∷ zs))) (sym l.0)
        (ground (arith, rest, off.0))

  scan_prev_lem :
      (test : Buf B → Bool) (c : Bcache B) (xs : List ℕ)
      → length xs ≤ nbuf
      → IsRing c xs
      → scan_prev (nbuf + 1) test (c.prev head) c ≡ done (last_of test c.buf xs)
  scan_prev_lem test c xs few r =
      let count = length-rev_onto xs [] in
      let found =
        scan_prev-Back (nbuf + 1) test (c.prev head) c (rev_onto xs []) (ground (arith, few, count))
          (All-rev_onto (λ y. head ≢ y) xs [] r.apart.0 tt)
          (Back-rev_onto c.next c.prev head xs [] r.linked refl) in
      found ∙ ap done (first_of-rev_onto test c.buf xs [] ∙ or_else-none (last_of test c.buf xs))

  -- What `bget` is for.
  abbrev pub got : ℕ → ℕ → Bcache B → Option ℕ → Option ℕ → Outcome (ℕ × Bcache B)
  got dev blockno c (some b) unused = done (b, bpin b c)
  got dev blockno c none (some b) = done (b, recycle dev blockno b c)
  got dev blockno c none none = panic

  pub bget_lem :
      (dev blockno : ℕ) (c : Bcache B) (xs : List ℕ)
      → length xs ≤ nbuf
      → IsRing c xs
      → bget dev blockno c
        ≡ got dev blockno c (first_of (caches dev blockno) c.buf xs) (last_of is_unused c.buf xs)
  unfolding bget
  bget_lem dev blockno c xs few r =
      let hit =
        scan_next_lem (nbuf + 1) (caches dev blockno) head c xs (ground (arith, few)) r.apart.0
          r.linked in
      let unused = scan_prev_lem is_unused c xs few r in
      elim (Option-cases (first_of (caches dev blockno) c.buf xs)) [
        | inl e ↦ elim (Option-cases (last_of is_unused c.buf xs)) [
          | inl e' ↦ rw (hit, e) (rw (unused, e') refl)
          | inr (b, e') ↦ rw (hit, e) (rw (unused, e') refl)
        ]
        | inr (b, e) ↦ rw (hit, e) refl
      ]

  -- Only the links of the ring matter.
  pub IsRing-buf :
      (c : Bcache B) (buf : ℕ → Buf B) (xs : List ℕ)
      → IsRing c xs
      → IsRing (record c { buf = buf }) xs
  IsRing-buf c buf xs r = record { linked = r.linked; apart = r.apart }

  abbrev pub left : ℕ → Bcache B → ℕ
  left b c = ((c.buf b).refcnt + (2 ^ 32 - 1)) % 2 ^ 32

  -- When the last user of a buffer gives it back, the buffer moves to the front of the list and the
  -- others keep their order; when another user is left, the list stays as it is.
  pub brelse-IsRing :
      (b : ℕ) (c : Bcache B) (xs ys : List ℕ)
      → IsRing c (xs ++ b ∷ ys)
      → (c' : Bcache B) × (brelse true b c ≡ done c')
        × (c'.buf ≡ (bunpin b c).buf)
        × (((left b c ≡ 0) × IsRing c' (b ∷ xs ++ ys))
            ⊎ ((left b c ≢ 0) × IsRing c' (xs ++ b ∷ ys)))
  unfolding brelse bunpin link_first unlink
  brelse-IsRing b c xs ys r =
      let c1 = bunpin b c in
      let r1 = IsRing-buf c c1.buf (xs ++ b ∷ ys) r in
      let off : b ≢ head = λ e. (All-right (λ y. head ≢ y) xs (b ∷ ys) r.apart.0).0 (sym e) in
      let offs = (Distinct-middle xs ys b r.apart.1).1 in
      elim (Bool-cases (left b c == 0)) [
        | inl last ↦ (
          link_first b (unlink b c1),
          ground (arith, last),
          refl,
          inl (
            ground (arith, last),
            link_first-IsRing b (unlink b c1) (xs ++ ys) off offs (unlink-IsRing b c1 xs ys r1),
          ),
        )
        | inr others ↦ (c1, ground (arith, others), refl, inr (ground (arith, others), r1))
      ]
