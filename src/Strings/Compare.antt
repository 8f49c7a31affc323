-- ===== src/Strings/Compare.antt =====
-- kernel/string.c: memcmp and strncmp against equality of the bytes they compare.
use gem_os_extension.Base.{
  ℕ, zero, suc, ◌≡◌, ◌≢◌, ◌↔◌, refl, inl, inr, Bool-cases, List, [], ◌∷◌, ◌==◌, if◌then◌else◌, pos,
  sub_ℕ, arith,
}
use gem_os_extension.Strings.{Memory, memcmp, strncmp}

-- The n bytes at p.
abbrev pub bytes : Memory → ℕ → ℕ → List ℕ
bytes m p zero = []
bytes m p (suc n) = m p ∷ bytes m (suc p) n

-- The string at p, its first n characters at most.
abbrev pub str : Memory → ℕ → ℕ → List ℕ
str m p zero = []
str m p (suc n) = let rest = str m (suc p) n in if m p == 0 then [] else m p ∷ rest

sub_ℕ_zero : (a b : ℕ) → a ≢ b → sub_ℕ a b ≢ pos 0
sub_ℕ_zero a b other e = ground (arith, other, e)

memcmp-bytes : (m : Memory) (p q n : ℕ) → (memcmp m p q n ≡ pos 0) ↔ (bytes m p n ≡ bytes m q n)
unfolding memcmp
memcmp-bytes m p q zero = (λ _. refl, λ _. refl)
memcmp-bytes m p q (suc n) =
    let rest = memcmp-bytes m (suc p) (suc q) n in
    elim (Bool-cases (m p == m q)) [
      | inl same ↦ ground (arith, same, rest)
      | inr other ↦ ground (arith, other, sub_ℕ_zero (m p) (m q))
    ]

-- `strncmp` returns 0 exactly when the first n characters of the two strings, up to their ends, are
-- the same.
pub strncmp-str : (m : Memory) (p q n : ℕ) → (strncmp m p q n ≡ pos 0) ↔ (str m p n ≡ str m q n)
unfolding strncmp
strncmp-str m p q zero = (λ _. refl, λ _. refl)
strncmp-str m p q (suc n) =
    let rest = strncmp-str m (suc p) (suc q) n in
    elim (Bool-cases (m p == m q)) [
      | inl same ↦ elim (Bool-cases (m p == 0)) [
        | inl ends ↦ ground (arith, same, ends)
        | inr char ↦ ground (arith, same, char, rest)
      ]
      | inr other ↦ ground (arith, other, sub_ℕ_zero (m p) (m q))
    ]
