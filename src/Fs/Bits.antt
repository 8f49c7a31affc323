-- ===== src/Fs/Bits.antt =====
-- kernel/fs.c: one bit of a byte, from a table of all bytes and bits.
use gem_os_extension.Base.{
  ℕ, zero, suc, ◌-◌, ◌/◌, ◌%◌, ◌^◌, ◌<◌, ◌≡◌, refl, ap, ◌∙◌, inl, inr, Bool, true, false, not, ◌&&◌,
  ◌||◌, Bool-cases, ◌==◌, if◌then◌else◌, ltb, ltb→lt, update, arith,
}
use Prim.Native.Nat.{bit_and, bit_or}
use gem_os_extension.Fs.{Block, is_clear, set_bit, clear_bit, mask}

-- The test passes for every number below the limit.
unfoldable pub passes_below : (ℕ → Bool) → ℕ → Bool
passes_below test zero = true
passes_below test (suc limit) =
    let others = passes_below test limit in if test limit then others else false

pub passes_below_at :
    (test : ℕ → Bool) (limit i : ℕ) → passes_below test limit ≡ true → i < limit → test i ≡ true
unfolding passes_below
passes_below_at test zero i passed below = absurd (ground (arith, below))
passes_below_at test (suc limit) i passed below = elim (Bool-cases (i == limit)) [
  | inl last ↦ let at : i ≡ limit = ground (arith, last) in ap test at ∙ ground (arith, passed)
  | inr earlier ↦
      passes_below_at test limit i (ground (arith, passed)) (ground (arith, earlier, below))
]

abbrev same : Bool → Bool → Bool
same true b = b
same false b = not b

-- The bit j of the byte x.
abbrev is_zero : ℕ → ℕ → Bool
is_zero x j = bit_and x (2 ^ j) == 0

abbrev row : ℕ → ℕ → ℕ → Bool
row x k j =
    same (is_zero (bit_or x (2 ^ k)) j) (not (k == j) && is_zero x j)
    && same (is_zero (bit_and x (255 - 2 ^ k)) j) (k == j || is_zero x j)

table : passes_below (λ x. passes_below (λ k. passes_below (row x k) 8) 8) 256 ≡ true
unfolding passes_below
table = refl

abbrev stays_byte : ℕ → ℕ → Bool
stays_byte x k = ltb (bit_or x (2 ^ k)) 256 && ltb (bit_and x (255 - 2 ^ k)) 256

sizes : passes_below (λ x. passes_below (stays_byte x) 8) 256 ≡ true
unfolding passes_below
sizes = refl

same-eq : (a b : Bool) → same a b ≡ true → a ≡ b
same-eq true true e = refl
same-eq true false e = ground (arith, e)
same-eq false true e = ground (arith, e)
same-eq false false e = refl

and-left : (a b : Bool) → a && b ≡ true → a ≡ true
and-left a b e = ground (arith, e)

and-right : (a b : Bool) → a && b ≡ true → b ≡ true
and-right a b e = ground (arith, e)

row-true : (x k j : ℕ) → x < 256 → k < 8 → j < 8 → row x k j ≡ true
row-true x k j hx hk hj =
    let at_x =
      passes_below_at (λ x. passes_below (λ k. passes_below (row x k) 8) 8) 256 x table hx in
    let at_k = passes_below_at (λ k. passes_below (row x k) 8) 8 k at_x hk in
    passes_below_at (row x k) 8 j at_k hj

bit_or_zero :
    (x k j : ℕ)
    → x < 256
    → k < 8
    → j < 8
    → is_zero (bit_or x (2 ^ k)) j ≡ (not (k == j) && is_zero x j)
bit_or_zero x k j hx hk hj = same-eq (is_zero (bit_or x (2 ^ k)) j) (not (k == j) && is_zero x j) (
    and-left (same (is_zero (bit_or x (2 ^ k)) j) (not (k == j) && is_zero x j))
      (same (is_zero (bit_and x (255 - 2 ^ k)) j) (k == j || is_zero x j))
      (row-true x k j hx hk hj))

bit_and_zero :
    (x k j : ℕ)
    → x < 256
    → k < 8
    → j < 8
    → is_zero (bit_and x (255 - 2 ^ k)) j ≡ (k == j || is_zero x j)
bit_and_zero x k j hx hk hj =
    same-eq (is_zero (bit_and x (255 - 2 ^ k)) j) (k == j || is_zero x j) (
      and-right (same (is_zero (bit_or x (2 ^ k)) j) (not (k == j) && is_zero x j))
        (same (is_zero (bit_and x (255 - 2 ^ k)) j) (k == j || is_zero x j))
        (row-true x k j hx hk hj))

-- A byte stays a byte.
bytes_below :
    (x k : ℕ) → x < 256 → k < 8 → (bit_or x (2 ^ k) < 256) × (bit_and x (255 - 2 ^ k) < 256)
bytes_below x k hx hk =
    let at_x = passes_below_at (λ x. passes_below (stays_byte x) 8) 256 x sizes hx in
    let both = passes_below_at (stays_byte x) 8 k at_x hk in
    (
      ltb→lt (bit_or x (2 ^ k)) 256
          (and-left (ltb (bit_or x (2 ^ k)) 256) (ltb (bit_and x (255 - 2 ^ k)) 256) both),
      ltb→lt (bit_and x (255 - 2 ^ k)) 256
          (and-right (ltb (bit_or x (2 ^ k)) 256) (ltb (bit_and x (255 - 2 ^ k)) 256) both),
    )

same_bit : (i j : ℕ) → i / 8 ≡ j / 8 → (i % 8 == j % 8) ≡ (i == j)
same_bit i j byte = ground (arith, byte)

abbrev pub IsBytes : Block → Type 0
IsBytes bytes = (i : ℕ) → bytes i < 256

pub set_bit-IsBytes : (bytes : Block) (bi : ℕ) → IsBytes bytes → IsBytes (set_bit bytes bi)
unfolding set_bit
set_bit-IsBytes bytes bi h i =
    let below = (bytes_below (bytes (bi / 8)) (bi % 8) (h (bi / 8)) (ground arith)).0 in
    ground (arith, below, h i)

pub clear_bit-IsBytes : (bytes : Block) (bi : ℕ) → IsBytes bytes → IsBytes (clear_bit bytes bi)
unfolding clear_bit
clear_bit-IsBytes bytes bi h i =
    let below = (bytes_below (bytes (bi / 8)) (bi % 8) (h (bi / 8)) (ground arith)).1 in
    ground (arith, below, h i)

-- Setting a bit makes it set, clearing it makes it clear, and both leave every other bit.
pub is_clear-set_bit :
    (bytes : Block) (bi bj : ℕ)
    → IsBytes bytes
    → is_clear (set_bit bytes bi) bj ≡ (not (bi == bj) && is_clear bytes bj)
unfolding is_clear set_bit
is_clear-set_bit bytes bi bj h = elim (Bool-cases (bi / 8 == bj / 8)) [
  | inl same_byte ↦
      let x = bytes (bi / 8) in
      let bit = bit_or_zero x (bi % 8) (bj % 8) (h (bi / 8)) (ground arith) (ground arith) in
      let byte : bi / 8 ≡ bj / 8 = ground (arith, same_byte) in
      let here : update bytes (bi / 8) (bit_or x (mask bi)) (bj / 8) ≡ bit_or x (mask bi) =
        ground (arith, same_byte) in
      ap (λ v. is_zero v (bj % 8)) here
      ∙ bit
      ∙ ap (λ t. not t && is_zero x (bj % 8)) (same_bit bi bj byte)
      ∙ ap (λ q. not (bi == bj) && is_zero (bytes q) (bj % 8)) byte
  | inr other_byte ↦
      let differ : (bi == bj) ≡ false = ground (arith, other_byte) in
      ground (arith, differ, other_byte)
]

pub is_clear-clear_bit :
    (bytes : Block) (bi bj : ℕ)
    → IsBytes bytes
    → is_clear (clear_bit bytes bi) bj ≡ (bi == bj || is_clear bytes bj)
unfolding is_clear clear_bit
is_clear-clear_bit bytes bi bj h = elim (Bool-cases (bi / 8 == bj / 8)) [
  | inl same_byte ↦
      let x = bytes (bi / 8) in
      let bit = bit_and_zero x (bi % 8) (bj % 8) (h (bi / 8)) (ground arith) (ground arith) in
      let byte : bi / 8 ≡ bj / 8 = ground (arith, same_byte) in
      let here : update bytes (bi / 8) (bit_and x (255 - mask bi)) (bj / 8)
          ≡ bit_and x (255 - mask bi) =
        ground (arith, same_byte) in
      ap (λ v. is_zero v (bj % 8)) here
      ∙ bit
      ∙ ap (λ t. t || is_zero x (bj % 8)) (same_bit bi bj byte)
      ∙ ap (λ q. bi == bj || is_zero (bytes q) (bj % 8)) byte
  | inr other_byte ↦
      let differ : (bi == bj) ≡ false = ground (arith, other_byte) in
      ground (arith, differ, other_byte)
]
