-- ===== src/Uvm/Freed.antt =====
-- kernel/vm.c: `uvmunmap` takes a range out of the map of addresses and frees its pages.
use gem_os_extension.Base.{
  ℕ, zero, suc, ◌+◌, ◌*◌, ◌/◌, ◌%◌, ◌<◌, ◌≤◌, ◌≡◌, ◌≢◌, inl, inr, refl, sym, ap, ◌∙◌, subst, true,
  false, Bool-cases, ◌&&◌, ◌==◌, if◌then◌else◌, List, ◌∷◌, All, done, arith,
}
use gem_os_extension.Base.{if-true, if-false}
use gem_os_extension.Kalloc.{pgsize}
use gem_os_extension.Kalloc.Pages.{IsPage}
use gem_os_extension.Kernel.{Kernel}
use gem_os_extension.Vm.{is_valid, maxva, pte2pa}
use gem_os_extension.Vm.Tree.{Roles, entry_of}
use gem_os_extension.Vm.Grow.{IsVm}
use gem_os_extension.Uvm.{unmap_from, uvmunmap}
use gem_os_extension.Uvm.Mapping.{in_range}
use gem_os_extension.Uvm.Unmap.{UserPages, unmapped, freed_onto, IsUnmapped, unmap_round}

-- What one page of the range leaves of the rest.
module _ (pt a m : ℕ) (k k1 : Kernel) (role : Roles) where
  rest_entry :
      (x : ℕ)
      → IsUnmapped pt k role a 1 k1
      → x < maxva
      → in_range (a + 4096) (m * 4096) x ≡ true
      → entry_of k1.mem pt x ≡ entry_of k.mem pt x
  rest_entry x h low inside =
      let outside : in_range a (1 * 4096) x ≡ false = ground (arith, inside) in
      h.entries x low
      ∙ if-false (in_range a (1 * 4096) x && is_valid (entry_of k.mem pt x)) 0 (entry_of k.mem pt x)
          (ap (λ b. b && is_valid (entry_of k.mem pt x)) outside)

  UserPages-rest :
      a % 4096 ≡ 0
      → a < maxva
      → IsUnmapped pt k role a 1 k1
      → UserPages pt k role a (suc m * 4096)
      → UserPages pt k1 role (a + 4096) (m * 4096)
  UserPages-rest aligned low h user = record {
    pages = λ x low_x inside valid.
        let same = rest_entry x h low_x inside in
        let was : is_valid (entry_of k.mem pt x) ≡ true = sym (ap is_valid same) ∙ valid in
        let whole : in_range a (suc m * 4096) x ≡ true = ground (arith, inside) in
        let here : in_range a (suc m * 4096) a ≡ true = ground arith in
        let other : x / 4096 ≢ a / 4096 = ground (arith, aligned, inside) in
        let (page, unused, off) = user.pages x low_x whole was in
        let end : k1.kernel_end ≡ k.kernel_end = ap (λ (c : Kernel). c.kernel_end) h.frame in
        let away : All (λ q. pte2pa (entry_of k.mem pt x) ≢ q)
            (freed_onto (entry_of k.mem pt) a 1 k.freelist) =
          elim (Bool-cases (is_valid (entry_of k.mem pt a))) [
            | inl on ↦
                subst (All (λ q. pte2pa (entry_of k.mem pt x) ≢ q))
                  (sym (
                    if-true (is_valid (entry_of k.mem pt a))
                      (pte2pa (entry_of k.mem pt a) ∷ k.freelist) k.freelist on))
                  (user.apart x a low_x low whole here was on other, off)
            | inr gone ↦
                subst (All (λ q. pte2pa (entry_of k.mem pt x) ≢ q))
                  (sym (
                    if-false (is_valid (entry_of k.mem pt a))
                      (pte2pa (entry_of k.mem pt a) ∷ k.freelist) k.freelist gone))
                  off
          ] in
        (
          subst (λ w. IsPage k1.kernel_end (pte2pa w)) (sym same)
              (subst (λ e. IsPage e (pte2pa (entry_of k.mem pt x))) (sym end) page),
          ap (λ w. role (pte2pa w)) same ∙ unused,
          subst (λ w. All (λ q. pte2pa w ≢ q) k1.freelist) (sym same)
              (subst (All (λ q. pte2pa (entry_of k.mem pt x) ≢ q)) (sym h.freelist) away),
        );
    apart = λ x y low_x low_y inside_x inside_y valid_x valid_y pages.
        let same_x = rest_entry x h low_x inside_x in
        let same_y = rest_entry y h low_y inside_y in
        let differ =
          user.apart x y low_x low_y (ground (arith, inside_x)) (ground (arith, inside_y))
            (sym (ap is_valid same_x) ∙ valid_x) (sym (ap is_valid same_y) ∙ valid_y) pages in
        λ e. differ (sym (ap pte2pa same_x) ∙ e ∙ ap pte2pa same_y);
  }

freed_onto_same :
    (entries entries1 : ℕ → ℕ) (va n : ℕ) (l : List ℕ)
    → ((x : ℕ) → va ≤ x → x < va + n * 4096 → entries1 x ≡ entries x)
    → freed_onto entries1 va n l ≡ freed_onto entries va n l
freed_onto_same entries entries1 va zero l same = refl
freed_onto_same entries entries1 va (suc n) l same =
    let first : entries1 va ≡ entries va = same va (ground arith) (ground arith) in
    ap (λ e. freed_onto entries1 (va + 4096) n (if is_valid e then pte2pa e ∷ l else l)) first
    ∙ freed_onto_same entries entries1 (va + 4096) n
        (if is_valid (entries va) then pte2pa (entries va) ∷ l else l)
        (λ x above below. same x (omega (arith, above)) (omega (arith, below)))

-- A first page and then m more.
unmapped-suc :
    (entries : ℕ → ℕ) (va m x : ℕ)
    → unmapped (unmapped entries va 4096) (va + 4096) (m * 4096) x
      ≡ unmapped entries va (suc m * 4096) x
unmapped-suc entries va m x = elim (Bool-cases (in_range va 4096 x)) [
  | inl first ↦
      let whole : in_range va (suc m * 4096) x ≡ true = ground (arith, first) in
      let later : in_range (va + 4096) (m * 4096) x ≡ false = ground (arith, first) in
      rw (later, first, whole) refl
  | inr other ↦ elim (Bool-cases (in_range (va + 4096) (m * 4096) x)) [
    | inl later ↦
        let whole : in_range va (suc m * 4096) x ≡ true = ground (arith, later) in
        rw (later, other, whole) refl
    | inr none_there ↦
        let whole : in_range va (suc m * 4096) x ≡ false = ground (arith, other, none_there) in
        rw (none_there, other, whole) refl
  ]
]

IsUnmapped-suc :
    (pt a m : ℕ) (k k1 k2 : Kernel) (role : Roles)
    → a + suc m * 4096 ≤ maxva
    → IsUnmapped pt k role a 1 k1
    → IsUnmapped pt k1 role (a + 4096) m k2
    → IsUnmapped pt k role a (suc m) k2
IsUnmapped-suc pt a m k k1 k2 role low h g = record {
  vm = g.vm;
  entries = λ x low_x.
      g.entries x low_x
      ∙ ap (λ e. if in_range (a + 4096) (m * 4096) x && is_valid e then 0 else e)
          (h.entries x low_x)
      ∙ unmapped-suc (entry_of k.mem pt) a m x;
  freelist =
      g.freelist
      ∙ freed_onto_same (entry_of k.mem pt) (entry_of k1.mem pt) (a + 4096) m k1.freelist
          (λ x above below.
            rest_entry pt a m k k1 role x h (omega (arith, low, below))
              (ground (arith, above, below)))
      ∙ ap (freed_onto (entry_of k.mem pt) (a + 4096) m) h.freelist;
  frame = g.frame ∙ ap (λ (c : Kernel). record c { mem = k2.mem; freelist = k2.freelist }) h.frame;
}

unmap_from-IsUnmapped :
    (n pt a : ℕ) (k : Kernel) (role : Roles)
    → IsVm k pt role
    → a % 4096 ≡ 0
    → a + n * 4096 ≤ maxva
    → UserPages pt k role a (n * 4096)
    → (k1 : Kernel) × IsUnmapped pt k role a n k1 × (unmap_from n pt a true k ≡ done k1)
unfolding unmap_from
unmap_from-IsUnmapped zero pt a k role h aligned low user = (
  k,
  record {
    vm = h;
    entries = λ x low_x.
        let outside : in_range a (0 * 4096) x ≡ false = ground arith in
        sym (
          if-false (in_range a (0 * 4096) x && is_valid (entry_of k.mem pt x)) 0
            (entry_of k.mem pt x) (ap (λ b. b && is_valid (entry_of k.mem pt x)) outside));
    freelist = refl;
    frame = refl;
  },
  refl,
)
unmap_from-IsUnmapped (suc n) pt a k role h aligned low user =
    let low_a : a < maxva = omega (arith, low) in
    let one : UserPages pt k role a 4096 = record {
      pages = λ x low_x inside. user.pages x low_x (ground (arith, inside));
      apart = λ x y low_x low_y inside_x inside_y.
          user.apart x y low_x low_y (ground (arith, inside_x)) (ground (arith, inside_y));
    } in
    let (k1, first, e) = unmap_round pt a k role h aligned low_a one in
    let (k2, rest, e2) =
      unmap_from-IsUnmapped n pt (a + 4096) k1 role first.vm (omega (arith, aligned))
        (omega (arith, low)) (UserPages-rest pt a n k k1 role aligned low_a first user) in
    (k2, IsUnmapped-suc pt a n k k1 k2 role low first rest, rw e e2)

-- `uvmunmap` that frees, of n pages below MAXVA from an aligned address on, returns, where the page
-- table is a tree, its tables are not free, and the mapped pages of the range are pages of memory
-- that are no tables, not free and mapped once: they are free, the last one first, and their
-- entries are 0; every other entry stays, and so do the tables.
pub uvmunmap-IsUnmapped :
    (n pt va : ℕ) (k : Kernel) (role : Roles)
    → IsVm k pt role
    → va % 4096 ≡ 0
    → va + n * 4096 ≤ maxva
    → UserPages pt k role va (n * 4096)
    → (k1 : Kernel) × IsUnmapped pt k role va n k1 × (uvmunmap pt va n true k ≡ done k1)
unfolding uvmunmap
uvmunmap-IsUnmapped n pt va k role h aligned low user =
    let is_aligned : va % pgsize == 0 ≡ true = ground (arith, aligned) in
    let (k1, done_so, e) = unmap_from-IsUnmapped n pt va k role h aligned low user in
    (k1, done_so, rw is_aligned e)
