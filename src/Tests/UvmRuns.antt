-- ===== src/Tests/UvmRuns.antt =====
-- Page tables at concrete inputs: an empty one, and one with a page mapped at 4096.
use gem_os_extension.Base.{
  ℕ, ◌≡◌, refl, ap, sym, subst, true, ◌==◌, if◌then◌else◌, [], ◌∷◌, done, arith,
}
use gem_os_extension.Kernel.{Kernel}
use gem_os_extension.Kalloc.Pages.{IsPage}
use gem_os_extension.Vm.{pte2pa, walk}
use gem_os_extension.Vm.Tree.{Roles, entry_of}
use gem_os_extension.Vm.Store.{same_entry}
use gem_os_extension.Vm.Grow.{IsVm, Walked, walk-Walked}
use gem_os_extension.Uvm.{uvmunmap}
use gem_os_extension.Uvm.Unmap.{UserPages, IsUnmapped}
use gem_os_extension.Uvm.Freed.{uvmunmap-IsUnmapped}
use gem_os_extension.Tests.PagingRuns.{machine}

abbrev root_page : ℕ
root_page = 2147491840

abbrev empty_roles : Roles
empty_roles r = if r == 2147491840 then 1 else 0

abbrev empty_table : Kernel
empty_table = record machine { freelist = 2147495936 ∷ 2147500032 ∷ [] }

empty_table-IsVm : IsVm empty_table 2147491840 empty_roles
empty_table-IsVm = record {
  tree = record {
    root = refl;
    mids = λ i small valid. absurd (ground (arith, valid));
    leaves = λ p i j small_i small_j at valid. absurd (ground (arith, valid));
    aligned = λ p table. ground (arith, table);
  };
  free = record {
    pages = (
      record { aligned = refl; above = ground arith; below = ground arith },
      (record { aligned = refl; above = ground arith; below = ground arith }, tt),
    );
    apart = ((ground arith, tt), (tt, tt));
  };
  unused = (refl, (refl, tt));
}

-- A root, a table below it, and a table below that with a page at 4096; entries are 536870912 + 256 n
-- for the page n of memory.
abbrev full_words : ℕ → ℕ
full_words a =
    if a == 2147491840
    then 536873985
    else if a == 2147495936
    then 536875009
    else if a == 2147500040
    then 536876055
    else 0

abbrev full_roles : Roles
full_roles r =
    if r == 2147491840 then 1 else if r == 2147495936 then 2 else if r == 2147500032 then 514 else 0

abbrev full_table : Kernel
full_table = record machine { mem = full_words }

full_table-IsVm : IsVm full_table 2147491840 full_roles
full_table-IsVm = record {
  tree = record {
    root = refl;
    mids = λ i small valid. ground (arith, small, valid);
    leaves = λ p i j small_i small_j at valid. ground (arith, small_i, small_j, at, valid);
    aligned = λ p table. ground (arith, table);
  };
  free = record {
    pages = (record { aligned = refl; above = ground arith; below = ground arith }, tt);
    apart = (tt, tt);
  };
  unused = (refl, tt);
}

full_table-UserPages : UserPages 2147491840 full_table full_roles 4096 4096
full_table-UserPages = record {
  pages = λ x low inside valid.
      let same : entry_of full_words 2147491840 x ≡ 536876055 =
        same_entry full_words 2147491840 x 4096 (ground (arith, inside)) in
      (
        subst (λ e. IsPage 2147483648 (pte2pa e)) (sym same)
            (record { aligned = refl; above = ground arith; below = ground arith }),
        ap (λ e. full_roles (pte2pa e)) same,
        (ground (arith, same), tt),
      );
  apart = λ x y low_x low_y inside_x inside_y valid_x valid_y other.
      absurd (other (ground (arith, inside_x, inside_y)));
}

walk-Walked_example :
    Walked 2147491840 8192 empty_table empty_roles (walk true 2147491840 8192 empty_table)
walk-Walked_example =
    walk-Walked 2147491840 8192 empty_table empty_roles (ground arith) empty_table-IsVm

uvmunmap-IsUnmapped_example :
    (k1 : Kernel) × IsUnmapped 2147491840 full_table full_roles 4096 1 k1
    × (uvmunmap 2147491840 4096 1 true full_table ≡ done k1)
uvmunmap-IsUnmapped_example =
    uvmunmap-IsUnmapped 1 2147491840 4096 full_table full_roles full_table-IsVm refl (ground arith)
      full_table-UserPages
