-- ===== src/Strings/Move.antt =====
-- kernel/string.c: memset and memmove against what they are for.
use gem_os_extension.Base.{
  ℕ, zero, suc, ◌+◌, ◌-◌, ◌%◌, ◌≤◌, ◌<◌, ◌≡◌, sym, ap, ◌∙◌, ◌⊎◌, inl, inr, Bool, true, Bool-cases,
  ◌&&◌, ltb, leb, ◌==◌, if◌then◌else◌, update, update_other, if-true, ◌≢◌, arith,
}
use gem_os_extension.Strings.{Memory, set_loop, memset, copy_down, copy_up, memmove}

-- The addresses from a on, n of them.
abbrev pub within : ℕ → ℕ → ℕ → Bool
within a n j = leb a j && ltb j (a + n)

-- Every byte of the range at once, the others kept.
abbrev pub moved : Memory → ℕ → ℕ → ℕ → Memory
moved m dst src n j = if within dst n j then m (src + (j - dst)) else m j

set_loop_lem :
    (m : Memory) (a c n j : ℕ) → set_loop m a c n j ≡ (if within a n j then c % 256 else m j)
unfolding set_loop
set_loop_lem m a c zero j = ground arith
set_loop_lem m a c (suc n) j = ground (arith, set_loop_lem (update m a (c % 256)) (suc a) c n j)

moved_first :
    (m : Memory) (d s n j : ℕ)
    → (d ≤ s) ⊎ (s + suc n ≤ d)
    → moved (update m d (m s)) (suc d) (suc s) n j ≡ moved m d s (suc n) j
moved_first m d s n j apart = elim (Bool-cases (within (suc d) n j)) [
  | inl inside ↦
      let index : suc s + (j - suc d) ≡ s + (j - d) = ground (arith, inside) in
      let other : d ≢ s + (j - d) = ground (arith, inside, apart) in
      let whole : within d (suc n) j ≡ true = ground (arith, inside) in
      if-true (within (suc d) n j) (update m d (m s) (suc s + (j - suc d))) (update m d (m s) j)
        inside
      ∙ ap (λ i. update m d (m s) i) index
      ∙ update_other m d (m s) (s + (j - d)) other
      ∙ sym (if-true (within d (suc n) j) (m (s + (j - d))) (m j) whole)
  | inr outside ↦ elim (Bool-cases (j == d)) [
    | inl here ↦
        let index : s ≡ s + (j - d) = ground (arith, here) in
        let value : m s ≡ m (s + (j - d)) = ap m index in ground (arith, value, here, outside)
    | inr there ↦ ground (arith, there, outside)
  ]
]

moved_last :
    (m : Memory) (d s n j : ℕ)
    → s < d
    → moved (update m (d + suc n - 1) (m (s + suc n - 1))) d s n j ≡ moved m d s (suc n) j
moved_last m d s n j before = elim (Bool-cases (j == d + n)) [
  | inl here ↦
      let index : s + suc n - 1 ≡ s + (j - d) = ground (arith, here) in
      let value : m (s + suc n - 1) ≡ m (s + (j - d)) = ap m index in
      ground (arith, value, here, before)
  | inr there ↦ elim (Bool-cases (within d n j)) [
    | inl inside ↦
        let apart : d + suc n - 1 ≢ s + (j - d) = ground (arith, inside, before) in
        ground (arith, apart, inside, there)
    | inr outside ↦ ground (arith, outside, there)
  ]
]

copy_up_lem :
    (m : Memory) (d s n j : ℕ) → (d ≤ s) ⊎ (s + n ≤ d) → copy_up m d s n j ≡ moved m d s n j
unfolding copy_up
copy_up_lem m d s zero j apart = ground arith
copy_up_lem m d s (suc n) j apart =
    let shifted : (suc d ≤ suc s) ⊎ (suc s + n ≤ suc d) = ground (arith, apart) in
    copy_up_lem (update m d (m s)) (suc d) (suc s) n j shifted ∙ moved_first m d s n j apart

copy_down_lem :
    (m : Memory) (d s n j : ℕ) → s < d → copy_down m (d + n) (s + n) n j ≡ moved m d s n j
unfolding copy_down
copy_down_lem m d s zero j before = ground arith
copy_down_lem m d s (suc n) j before =
    let top : (e : ℕ) → e + suc n - 1 ≡ e + n = λ e. ground arith in
    ap (λ z. copy_down (update m (d + suc n - 1) (m (s + suc n - 1))) z (s + suc n - 1) n j) (top d)
    ∙ ap (λ z. copy_down (update m (d + suc n - 1) (m (s + suc n - 1))) (d + n) z n j) (top s)
    ∙ copy_down_lem (update m (d + suc n - 1) (m (s + suc n - 1))) d s n j before
    ∙ moved_last m d s n j before

-- `memmove` is a copy of all n bytes at once, also where the source and the target overlap, and
-- changes no other byte.
pub memmove-moved : (m : Memory) (dst src n j : ℕ) → memmove m dst src n j ≡ moved m dst src n j
unfolding memmove
memmove-moved m dst src zero j = ground arith
memmove-moved m dst src (suc n) j = elim (Bool-cases (ltb src dst && ltb dst (src + suc n))) [
  | inl overlap ↦
      let down = copy_down_lem m dst src (suc n) j (ground (arith, overlap)) in
      ground (arith, down, overlap)
  | inr apart ↦
      let up = copy_up_lem m dst src (suc n) j (ground (arith, apart)) in ground (arith, up, apart)
]

memset_lem :
    (m : Memory) (dst c n j : ℕ) → memset m dst c n j ≡ (if within dst n j then c % 256 else m j)
unfolding memset
memset_lem m dst c n j = set_loop_lem m dst c n j
