-- ===== src/Vm/Words.antt =====
-- kernel/vm.c: the words that the page tables are made of, and a new table linked into one.
use gem_os_extension.Base.{
  ℕ, zero, suc, ◌+◌, ◌*◌, ◌/◌, ◌%◌, ◌<◌, ◌≤◌, ◌≡◌, ◌≢◌, refl, ◌∙◌, true, update, arith,
}
use Prim.Native.Nat.{bit_or, bit_or-bitwise, digits, max}
use gem_os_extension.Kalloc.{phystop}
use gem_os_extension.Vm.{pte_v, pa2pte, pte2pa, is_valid, clear_page}

digits_or_zero : (n y : ℕ) → y ≤ n → digits (λ b. b) max n y 0 ≡ y
digits_or_zero zero y le = ground (arith, le)
digits_or_zero (suc n) zero le = refl
digits_or_zero (suc n) (suc y) le = omega (arith, digits_or_zero n (suc y / 2) (omega (arith, le)))

-- A word with its lowest bit set.
pub bit_or_one : (x : ℕ) → bit_or x 1 ≡ x / 2 * 2 + 1
bit_or_one zero = refl
bit_or_one (suc x) =
    bit_or-bitwise (suc x) 1 ∙ omega (arith, digits_or_zero x (suc x / 2) (omega arith))

-- The entry for a page of tables.
abbrev pub table_entry : ℕ → ℕ
table_entry q = bit_or (pa2pte q) pte_v

pub table_entry_lem :
    (q : ℕ)
    → q % 4096 ≡ 0
    → q < phystop
    → (is_valid (table_entry q) ≡ true) × (pte2pa (table_entry q) ≡ q)
table_entry_lem q aligned low =
    let word = bit_or_one (pa2pte q) in (ground (arith, word), ground (arith, word, aligned, low))

-- Memory after the zeroed page q is linked in at the address `slot`.
abbrev pub linked : (ℕ → ℕ) → ℕ → ℕ → ℕ → ℕ
linked mem slot q = update (clear_page q mem) slot (table_entry q)

-- The new page is empty, and every word of another page is as it was, but for the slot.
pub linked-page :
    (mem : ℕ → ℕ) (p j q i : ℕ)
    → p % 4096 ≡ 0
    → q % 4096 ≡ 0
    → p ≢ q
    → i < 512
    → j < 512
    → linked mem (p + 8 * j) q (q + 8 * i) ≡ 0
linked-page mem p j q i p_aligned q_aligned apart small small_j =
    ground (arith, p_aligned, q_aligned, apart, small, small_j)

pub linked-other :
    (mem : ℕ → ℕ) (slot q p i : ℕ)
    → p % 4096 ≡ 0
    → q % 4096 ≡ 0
    → i < 512
    → p ≢ q
    → slot ≢ p + 8 * i
    → linked mem slot q (p + 8 * i) ≡ mem (p + 8 * i)
linked-other mem slot q p i p_aligned q_aligned small apart off =
    ground (arith, p_aligned, q_aligned, small, apart, off)
