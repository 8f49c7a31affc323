-- ===== src/Strings.antt =====
-- kernel/string.c: the memory and string functions. Memory is the byte at each address; a function
-- that returns the pointer it was given returns only the memory here.
pub mod Move
pub mod Copy
pub mod Compare
use gem_os_extension.Base.{
  ℕ, zero, suc, ◌+◌, ◌-◌, ◌%◌, Bool, true, false, not, ◌&&◌, ltb, leb, ◌==◌, if◌then◌else◌, update,
  Outcome, done, spin, ℤ, pos, sub_ℕ,
}

abbrev pub Memory : Type 0
Memory = ℕ → ℕ

-- The loop of `memset`: n bytes are left, from the address a on.
unfoldable pub set_loop : Memory → ℕ → ℕ → ℕ → Memory
set_loop m a c zero = m
set_loop m a c (suc n) = set_loop (update m a (c % 256)) (suc a) c n

unfoldable pub memset : Memory → ℕ → ℕ → ℕ → Memory
memset m dst c n = set_loop m dst c n

unfoldable pub memcmp : Memory → ℕ → ℕ → ℕ → ℤ
memcmp m s1 s2 zero = pos 0
memcmp m s1 s2 (suc n) =
    let rest = memcmp m (suc s1) (suc s2) n in if m s1 == m s2 then rest else sub_ℕ (m s1) (m s2)

-- The two loops of `memmove`: from the ends down, and from the starts up.
unfoldable pub copy_down : Memory → ℕ → ℕ → ℕ → Memory
copy_down m d s zero = m
copy_down m d s (suc n) = copy_down (update m (d - 1) (m (s - 1))) (d - 1) (s - 1) n

unfoldable pub copy_up : Memory → ℕ → ℕ → ℕ → Memory
copy_up m d s zero = m
copy_up m d s (suc n) = copy_up (update m d (m s)) (suc d) (suc s) n

unfoldable pub memmove : Memory → ℕ → ℕ → ℕ → Memory
memmove m dst src n =
    if n == 0
    then m
    else if ltb src dst && ltb dst (src + n)
    then copy_down m (dst + n) (src + n) n
    else copy_up m dst src n

unfoldable pub memcpy : Memory → ℕ → ℕ → ℕ → Memory
memcpy m dst src n = memmove m dst src n

unfoldable pub strncmp : Memory → ℕ → ℕ → ℕ → ℤ
strncmp m p q zero = pos 0
strncmp m p q (suc n) =
    let rest = strncmp m (suc p) (suc q) n in
    if not (m p == 0) && m p == m q then rest else sub_ℕ (m p) (m q)

-- The second loop of `strncpy`.
unfoldable pub pad : Memory → ℕ → ℕ → Memory
pad m s zero = m
pad m s (suc n) = pad (update m s 0) (suc s) n

-- A negative n, as 0, copies nothing.
unfoldable pub strncpy : Memory → ℕ → ℕ → ℕ → Memory
strncpy m s t zero = m
strncpy m s t (suc n) =
    let m1 = update m s (m t) in
    let rest = strncpy m1 (suc s) (suc t) n in if m t == 0 then pad m1 (suc s) n else rest

-- The loop of `safestrcpy`, n characters at most, and the zero at its end.
unfoldable pub safe_loop : Memory → ℕ → ℕ → ℕ → Memory
safe_loop m s t zero = update m s 0
safe_loop m s t (suc n) =
    let m1 = update m s (m t) in
    let rest = safe_loop m1 (suc s) (suc t) n in if m t == 0 then update m1 (suc s) 0 else rest

unfoldable pub safestrcpy : Memory → ℕ → ℕ → ℕ → Memory
safestrcpy m s t zero = m
safestrcpy m s t (suc n) = safe_loop m s t n

-- The loop of `strlen`; the last argument is the fuel.
unfoldable pub strlen_from : Memory → ℕ → ℕ → ℕ → Outcome ℕ
strlen_from m s n zero = spin
strlen_from m s n (suc fuel) =
    let rest = strlen_from m s (suc n) fuel in if m (s + n) == 0 then done n else rest

unfoldable pub strlen : Memory → ℕ → ℕ → Outcome ℕ
strlen m s fuel = strlen_from m s 0 fuel
