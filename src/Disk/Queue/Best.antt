-- ===== src/Disk/Queue/Best.antt =====
-- kernel/disk_sched.c: the loop of `schedule_sstf` finds the first of the best requests.
use mathlib.Core.List.{append-nil, append_assoc}
use gem_os_extension.Base.{
  ℕ, zero, suc, ◌≡◌, ◌<◌, ◌≤◌, refl, sym, subst, ◌⊎◌, some, List, [], ◌∷◌, ◌++◌, arith, true, false,
  Bool-cases, inl, inr, All, All-append, All-map, last_or, last_or-snoc, length,
}
use gem_os_extension.Disk.Queue.{Disk, Scan, latency_of, is_better, scan_step, scan_loop}
use gem_os_extension.Disk.Queue.Chain.{Chain}

-- The request at `a` is to be served before the one at `b`: it is nearer, or as near and of a
-- lower level.
abbrev pub Beats : Disk → ℕ → ℕ → Type 0
Beats d a b =
    (latency_of d a < latency_of d b)
    ⊎ ((latency_of d a ≡ latency_of d b) × ((d.requests a).priority < (d.requests b).priority))

-- The request at `a` may be served before the one at `b`.
abbrev pub Ties : Disk → ℕ → ℕ → Type 0
Ties d a b =
    (latency_of d a < latency_of d b)
    ⊎ ((latency_of d a ≡ latency_of d b) × ((d.requests a).priority ≤ (d.requests b).priority))

Beats-trans : (d : Disk) (a b c : ℕ) → Beats d a b → Beats d b c → Beats d a c
Beats-trans d a b c h k = ground arith

Beats-Ties : (d : Disk) (a b c : ℕ) → Beats d a b → Ties d b c → Beats d a c
Beats-Ties d a b c h k = ground arith

-- After the requests `seen`, the scan holds the first of the best among them.
pub record IsBest (d : Disk) (seen : List ℕ) (s : Scan) : Type 0 where
  pub before : List ℕ
  pub after : List ℕ
  pub split : seen ≡ before ++ s.best ∷ after
  pub prev : s.prev_best ≡ last_or 0 before
  pub last : s.prev_curr ≡ last_or 0 seen
  pub least : s.min_latency ≡ latency_of d s.best
  pub first : All (Beats d s.best) before
  pub rest : All (Ties d s.best) after

is_better-true :
    (d : Disk) (s : Scan)
    → s.min_latency ≡ latency_of d s.best
    → is_better d s ≡ true
    → Beats d s.curr s.best
unfolding is_better
is_better-true d s e h = ground arith

is_better-false :
    (d : Disk) (s : Scan)
    → s.min_latency ≡ latency_of d s.best
    → is_better d s ≡ false
    → Ties d s.best s.curr
unfolding is_better
is_better-false d s e h = ground arith

Beats-All :
    (d : Disk) (a b : ℕ) (xs ys : List ℕ)
    → Beats d a b
    → All (Beats d b) xs
    → All (Ties d b) ys
    → All (Beats d a) (xs ++ b ∷ ys)
Beats-All d a b xs ys h hx hy =
    All-append (Beats d a) xs (b ∷ ys)
      (All-map (Beats d b) (Beats d a) (λ c. Beats-trans d a b c h) xs hx)
      (h, All-map (Ties d b) (Beats d a) (λ c. Beats-Ties d a b c h) ys hy)

scan_step-IsBest :
    (d : Disk) (seen : List ℕ) (s : Scan)
    → IsBest d seen s
    → IsBest d (seen ++ s.curr ∷ []) (scan_step d s)
unfolding scan_step
scan_step-IsBest d seen s h = elim (Bool-cases (is_better d s)) [
  | inl e ↦ rw e (record {
    before = seen;
    after = [];
    split = refl;
    prev = h.last;
    last = sym (last_or-snoc 0 seen s.curr);
    least = refl;
    first =
        rw h.split (
          Beats-All d s.curr s.best h.before h.after (is_better-true d s h.least e) h.first h.rest);
    rest = tt;
  })
  | inr e ↦ rw e (record {
    before = h.before;
    after = h.after ++ s.curr ∷ [];
    split = rw h.split (append_assoc h.before (s.best ∷ h.after) (s.curr ∷ []));
    prev = h.prev;
    last = sym (last_or-snoc 0 seen s.curr);
    least = h.least;
    first = h.first;
    rest =
        All-append (Ties d s.best) h.after (s.curr ∷ []) h.rest (is_better-false d s h.least e, tt);
  })
]

-- With more fuel than there are requests left, the loop ends at the end of the list.
pub scan_loop-IsBest :
    (d : Disk) (fuel : ℕ) (seen todo : List ℕ) (s : Scan)
    → IsBest d seen s
    → Chain d.requests s.curr todo
    → length todo < fuel
    → (t : Scan) × (scan_loop d fuel s ≡ some t) × IsBest d (seen ++ todo) t
unfolding scan_loop scan_step
scan_loop-IsBest d zero seen todo s h c f = elim f [ ]
scan_loop-IsBest d (suc fuel) seen [] s h c f = (s, rw c, rw append-nil h)
scan_loop-IsBest d (suc fuel) seen (a ∷ todo) s h c f =
    let step : IsBest d (seen ++ a ∷ []) (scan_step d s) =
      subst (λ z. IsBest d (seen ++ z ∷ []) (scan_step d s)) c.0 (scan_step-IsBest d seen s h) in
    let next : Chain d.requests (scan_step d s).curr todo =
      subst (λ z. Chain d.requests (d.requests z).next todo) (sym c.0) c.2 in
    let (t, e, b) =
      scan_loop-IsBest d fuel (seen ++ a ∷ []) todo (scan_step d s) step next (omega arith) in
    (t, ground (arith, e, c), rw append_assoc at b)
