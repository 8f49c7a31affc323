-- ===== src/Uvm/Range.antt =====
-- kernel/vm.c: `mappages` maps its range, or stops when no page is left.
use gem_os_extension.Base.{ℕ, ◌<◌, ◌≡◌, ◌⊎◌, true, false, [], Outcome, done}
use gem_os_extension.Base.{ℤ, pos, minus_one}
use gem_os_extension.Kernel.{Kernel}
use gem_os_extension.Vm.{is_valid, maxva}
use gem_os_extension.Vm.Tree.{Roles, entry_of}
use gem_os_extension.Uvm.Mapping.{Keeps, in_range, MapTo}

-- No page of the range is mapped.
abbrev pub Unmapped : ℕ → Kernel → ℕ → ℕ → Type 0
Unmapped pt k va len =
    (x : ℕ) → x < maxva → in_range va len x ≡ true → is_valid (entry_of k.mem pt x) ≡ false

-- The whole range of n pages is mapped and the answer is 0; or no page is left for a table, a part
-- of the range is mapped, and the answer is -1.
abbrev pub MapResult : ℕ → Kernel → Roles → ℕ → ℕ → ℕ → ℕ → Outcome (ℤ × Kernel) → Type 0
MapResult pt k role n va pa perm result =
    (m : ℕ) × (k1 : Kernel) × (role1 : Roles) × Keeps pt k role k1 role1
    × MapTo pt k k1 m va pa perm
    × (((m ≡ n) × (result ≡ done (pos 0, k1)))
        ⊎ ((m < n) × (k1.freelist ≡ []) × (result ≡ done (minus_one, k1))))
