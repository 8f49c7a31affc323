-- ===== src/Strings/Copy.antt =====
-- kernel/string.c: strncpy, safestrcpy and strlen against the characters of a string.
use gem_os_extension.Base.{
  ℕ, zero, suc, ◌+◌, ◌-◌, ◌≤◌, ◌<◌, ◌≡◌, ap, ◌∙◌, ◌⊎◌, inl, inr, true, false, Bool-cases, ltb, ◌==◌,
  if◌then◌else◌, update, done, arith,
}
use gem_os_extension.Strings.{Memory, pad, strncpy, safe_loop, safestrcpy, strlen_from, strlen}
use gem_os_extension.Strings.Move.{within}

-- The i-th character of the string at t, 0 from its end on.
abbrev pub char_at : Memory → ℕ → ℕ → ℕ
char_at m t zero = m t
char_at m t (suc i) = let rest = char_at m (suc t) i in if m t == 0 then 0 else rest

-- A byte outside the characters that are read does not matter.
char_at-update :
    (m : Memory) (s v t i : ℕ) → (s < t) ⊎ (t + i < s) → char_at (update m s v) t i ≡ char_at m t i
char_at-update m s v t zero apart = ground (arith, apart)
char_at-update m s v t (suc i) apart =
    let later : (s < suc t) ⊎ (suc t + i < s) = ground (arith, apart) in
    ground (arith, apart, char_at-update m s v (suc t) i later)

pad_lem : (m : Memory) (s n j : ℕ) → pad m s n j ≡ (if within s n j then 0 else m j)
unfolding pad
pad_lem m s zero j = ground arith
pad_lem m s (suc n) j = ground (arith, pad_lem (update m s 0) (suc s) n j)

-- The target holds the first n characters of the source, with zeros after its end, and no other byte
-- changes, where the two do not overlap.
pub strncpy-char_at :
    (m : Memory) (s t n j : ℕ)
    → (s + n ≤ t) ⊎ (t + n ≤ s)
    → strncpy m s t n j ≡ (if within s n j then char_at m t (j - s) else m j)
unfolding strncpy
strncpy-char_at m s t zero j apart = ground arith
strncpy-char_at m s t (suc n) j apart = elim (Bool-cases (within (suc s) n j)) [
  | inl later ↦
      let later_apart : (suc s + n ≤ suc t) ⊎ (suc t + n ≤ suc s) = ground (arith, apart) in
      let index : j - s ≡ suc (j - suc s) = ground (arith, later) in
      let reads : (s < suc t) ⊎ (suc t + (j - suc s) < s) = ground (arith, apart, later) in
      let chars : char_at m t (j - s) ≡ char_at m t (suc (j - suc s)) = ap (char_at m t) index in
      ground (
        arith,
        later,
        chars,
        pad_lem (update m s (m t)) (suc s) n j,
        strncpy-char_at (update m s (m t)) (suc s) (suc t) n j later_apart,
        char_at-update m s (m t) (suc t) (j - suc s) reads,
      )
  | inr before ↦
      let later_apart : (suc s + n ≤ suc t) ⊎ (suc t + n ≤ suc s) = ground (arith, apart) in
      elim (Bool-cases (j == s)) [
        | inl here ↦
            let index : j - s ≡ 0 = ground (arith, here) in
            let first : char_at m t (j - s) ≡ char_at m t 0 = ap (char_at m t) index in
            ground (
              arith,
              before,
              here,
              first,
              pad_lem (update m s (m t)) (suc s) n j,
              strncpy-char_at (update m s (m t)) (suc s) (suc t) n j later_apart,
            )
        | inr outside ↦ ground (
          arith,
          before,
          outside,
          pad_lem (update m s (m t)) (suc s) n j,
          strncpy-char_at (update m s (m t)) (suc s) (suc t) n j later_apart,
        )
      ]
]

safe_loop_outside :
    (m : Memory) (s t n j : ℕ) → within s (suc n) j ≡ false → safe_loop m s t n j ≡ m j
unfolding safe_loop
safe_loop_outside m s t zero j outside = ground (arith, outside)
safe_loop_outside m s t (suc n) j outside =
    let later : within (suc s) (suc n) j ≡ false = ground (arith, outside) in
    ground (arith, outside, safe_loop_outside (update m s (m t)) (suc s) (suc t) n j later)

safe_loop-char_at :
    (m : Memory) (s t n i : ℕ)
    → (s + n < t) ⊎ (t + n ≤ s)
    → char_at (safe_loop m s t n) s i ≡ (if ltb i n then char_at m t i else 0)
unfolding safe_loop
safe_loop-char_at m s t zero zero apart = ground arith
safe_loop-char_at m s t zero (suc i) apart = ground arith
safe_loop-char_at m s t (suc n) zero apart =
    let before : within (suc s) (suc n) s ≡ false = ground arith in
    ground (arith, safe_loop_outside (update m s (m t)) (suc s) (suc t) n s before)
safe_loop-char_at m s t (suc n) (suc i) apart =
    let before : within (suc s) (suc n) s ≡ false = ground arith in
    let first = safe_loop_outside (update m s (m t)) (suc s) (suc t) n s before in
    let later : (suc s + n < suc t) ⊎ (suc t + n ≤ suc s) = ground (arith, apart) in
    let rest = safe_loop-char_at (update m s (m t)) (suc s) (suc t) n i later in
    elim (Bool-cases (m t == 0)) [
      | inl ends ↦ ground (arith, ends)
      | inr char ↦
          let chars : ltb i n ≡ true → char_at (update m s (m t)) (suc t) i ≡ char_at m (suc t) i =
            λ inside. char_at-update m s (m t) (suc t) i (ground (arith, apart, inside)) in
          let here : safe_loop m s t (suc n) ≡ safe_loop (update m s (m t)) (suc s) (suc t) n =
            ground (arith, char) in
          ap (λ z. char_at z s (suc i)) here ∙ ground (arith, first, rest, char, chars)
    ]

strlen_from_done :
    (m : Memory) (s c n fuel : ℕ)
    → char_at m (s + c) n ≡ 0
    → n < fuel
    → (k : ℕ) × (k ≤ c + n) × (strlen_from m s c fuel ≡ done k) × (m (s + k) ≡ 0)
unfolding strlen_from
strlen_from_done m s c n zero ends enough = absurd (ground (arith, enough))
strlen_from_done m s c zero (suc fuel) ends enough = (c, ground arith, ground (arith, ends), ends)
strlen_from_done m s c (suc n) (suc fuel) ends enough = elim (Bool-cases (m (s + c) == 0)) [
  | inl zero_here ↦ (c, ground arith, ground (arith, zero_here), ground (arith, zero_here))
  | inr char ↦
      let later : char_at m (s + suc c) n ≡ 0 = ground (arith, ends, char) in
      let (k, bound, e, end_k) =
        strlen_from_done m s (suc c) n fuel later (ground (arith, enough)) in
      (k, ground (arith, bound), ground (arith, e, char), end_k)
]

-- With a buffer of n + 1 bytes that the source does not overlap: the target reads as the first n
-- characters of the source and ends there; no byte outside the buffer changes; and `strlen` of the
-- target, with n + 1 units of fuel, ends, with at most n, the place of a zero in the buffer.
pub safestrcpy-strlen :
    (m : Memory) (s t n i j : ℕ)
    → (s + n < t) ⊎ (t + n ≤ s)
    → (char_at (safestrcpy m s t (suc n)) s i ≡ (if ltb i n then char_at m t i else 0))
      × ((within s (suc n) j ≡ true) ⊎ (safestrcpy m s t (suc n) j ≡ m j))
      × ((k : ℕ) × (k ≤ n)
          × (strlen (safestrcpy m s t (suc n)) s (suc n) ≡ done k)
          × (safestrcpy m s t (suc n) (s + k) ≡ 0))
unfolding safestrcpy strlen
safestrcpy-strlen m s t n i j apart =
    let here : s + 0 ≡ s = ground arith in
    let last : (if ltb n n then char_at m t n else 0) ≡ 0 = ground arith in
    let ends : char_at (safe_loop m s t n) (s + 0) n ≡ 0 =
      ap (λ a. char_at (safe_loop m s t n) a n) here ∙ safe_loop-char_at m s t n n apart ∙ last in
    let kept : (within s (suc n) j ≡ true) ⊎ (safe_loop m s t n j ≡ m j) =
      elim (Bool-cases (within s (suc n) j)) [
        | inl inside ↦ inl inside
        | inr outside ↦ inr (safe_loop_outside m s t n j outside)
      ] in
    let (k, bound, found, end) =
      strlen_from_done (safe_loop m s t n) s 0 n (suc n) ends (ground arith) in
    (safe_loop-char_at m s t n i apart, kept, (k, ground (arith, bound), found, end))
