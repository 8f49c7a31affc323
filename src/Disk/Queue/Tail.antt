-- ===== src/Disk/Queue/Tail.antt =====
-- kernel/disk_sched.c: the tail pointer after `schedule_sstf`.
use mathlib.Core.List.{append-nil}
use gem_os_extension.Base.{
  ℕ, ◌≡◌, ◌<◌, refl, sym, ap, ◌∙◌, subst, ◌≢◌, ◌⊎◌, some, List, [], ◌∷◌, ◌++◌, arith, update, All,
  last_or, Distinct, length, ◌==◌, if◌then◌else◌,
}
use gem_os_extension.Disk.Queue.{Disk, DiskRequest, schedule_sstf, enqueue}
use gem_os_extension.Disk.Queue.Chain.{
  Chain, Chain-update, Chain-middle, Distinct-middle, split_unique,
}
use gem_os_extension.Disk.Queue.Fcfs.{IsQueue}
use gem_os_extension.Disk.Queue.Sstf.{Served, schedule_sstf-Served}

last_or-cons : (d x : ℕ) (xs ys : List ℕ) → last_or d (xs ++ x ∷ ys) ≡ last_or x ys
last_or-cons d x [] ys = refl
last_or-cons d x (z ∷ xs) ys = last_or-cons z x xs ys

-- What `schedule_sstf` leaves, where the request that it takes and its place are known.
record Left (d rest : Disk) (best : ℕ) (before after : List ℕ) : Type 0 where
  chain : Chain rest.requests rest.disk_queue_head (before ++ after)
  apart : Distinct (before ++ after)
  tail : rest.disk_queue_tail ≡ (if rest.disk_queue_head == 0 then 0 else last_or best after)

queue_first :
    (d : Disk) (best : ℕ) (before after : List ℕ)
    → (x : ℕ) × (xs : List ℕ) × (before ++ best ∷ after ≡ x ∷ xs)
queue_first d best [] after = (best, after, refl)
queue_first d best (x ∷ before) after = (x, before ++ best ∷ after, refl)

schedule_sstf-Left :
    (d rest : Disk) (fuel best : ℕ) (before after : List ℕ)
    → IsQueue d (before ++ best ∷ after)
    → length (before ++ best ∷ after) < fuel
    → schedule_sstf fuel d ≡ some (best, rest)
    → Left d rest best before after
schedule_sstf-Left d rest fuel best before after q f e =
    let (x, xs, shape) = queue_first d best before after in
    let s : Served d (x ∷ xs) (schedule_sstf fuel d) =
      schedule_sstf-Served d fuel x xs (subst (IsQueue d) shape q)
        (subst (λ ys. length ys < fuel) shape f) in
    let same : (s.best ≡ best) × (s.rest ≡ rest) = ground (arith, s.returns) in
    let cut : (before ≡ s.before) × (after ≡ s.after) =
      split_unique best before after s.before s.after q.apart
        (shape ∙ s.split ∙ ap (λ b. s.before ++ b ∷ s.after) same.0) in
    let last : d.disk_queue_tail ≡ last_or best after = q.tail ∙ last_or-cons 0 best before after in
    record {
      chain = rw (cut.0, cut.1, ← same.1) s.chain;
      apart = rw (cut.0, cut.1) s.apart;
      tail = rw (← same.1, ← last) s.tail;
    }

-- With more fuel than requests: where the request that `schedule_sstf` takes is the first of the
-- queue, or another stands behind it, the queue stays sound and holds the other requests in their
-- order.
pub schedule_sstf-IsQueue :
    (d rest : Disk) (fuel best : ℕ) (before after : List ℕ)
    → IsQueue d (before ++ best ∷ after)
    → length (before ++ best ∷ after) < fuel
    → schedule_sstf fuel d ≡ some (best, rest)
    → (before ≡ []) ⊎ (after ≢ [])
    → IsQueue rest (before ++ after)
schedule_sstf-IsQueue d rest fuel best [] [] q f e h =
    let l = schedule_sstf-Left d rest fuel best [] [] q f e in
    record { chain = l.chain; apart = l.apart; tail = ground (arith, l.tail, l.chain) }
schedule_sstf-IsQueue d rest fuel best (x ∷ before) [] q f e h = absurd (ground arith)
schedule_sstf-IsQueue d rest fuel best before (y ∷ after) q f e h =
    let l = schedule_sstf-Left d rest fuel best before (y ∷ after) q f e in
    let head = (Chain-middle rest.requests rest.disk_queue_head y before after l.chain).0 in
    record {
      chain = l.chain;
      apart = l.apart;
      tail = ground (arith, l.tail, head, last_or-cons 0 y before after);
    }

enqueue-behind :
    (d : Disk) (a : ℕ) (r : DiskRequest)
    → d.disk_queue_tail ≢ 0
    → let filled = update d.requests a r in
      let last = d.disk_queue_tail in
      enqueue a r d ≡ record d {
        requests = update filled last (record (filled last) { next = a });
        disk_queue_tail = a;
      }
unfolding enqueue
enqueue-behind d a r h = ground arith

-- With more fuel than requests: a request that `schedule_sstf` takes from the end of a longer queue
-- stays the queue's tail, and the next request, at a page off the queue, is linked behind it: the
-- list from the head does not hold that one.
pub schedule_sstf_loses :
    (d rest : Disk) (fuel x best a : ℕ) (before : List ℕ) (r : DiskRequest)
    → IsQueue d (x ∷ before ++ best ∷ [])
    → length (x ∷ before ++ best ∷ []) < fuel
    → schedule_sstf fuel d ≡ some (best, rest)
    → All (λ y. a ≢ y) (x ∷ before)
    → let d' = enqueue a r rest in
      (rest.disk_queue_tail ≡ best) × Chain d'.requests d'.disk_queue_head (x ∷ before)
schedule_sstf_loses d rest fuel x best a before r q f e off =
    let l = schedule_sstf-Left d rest fuel best (x ∷ before) [] q f e in
    let left : Chain rest.requests rest.disk_queue_head (x ∷ before) = rw append-nil at l.chain in
    let head : rest.disk_queue_head ≢ 0 =
      (Chain-middle rest.requests rest.disk_queue_head x [] before left).0 in
    let tail : rest.disk_queue_tail ≡ best = ground (arith, l.tail, head) in
    let nonzero = (Chain-middle d.requests d.disk_queue_head best (x ∷ before) [] q.chain).1 in
    let apart : All (λ y. best ≢ y) (x ∷ before) =
      rw append-nil at ((Distinct-middle (x ∷ before) [] best q.apart).1) in
    let filled = update rest.requests a r in
    (
      tail,
      subst (λ (z : Disk). Chain z.requests z.disk_queue_head (x ∷ before))
          (sym (enqueue-behind rest a r (λ z. nonzero (sym tail ∙ z))))
          (Chain-update filled rest.disk_queue_head rest.disk_queue_tail
            (record (filled rest.disk_queue_tail) { next = a }) (x ∷ before)
            (subst (λ z. All (λ y. z ≢ y) (x ∷ before)) (sym tail) apart)
            (Chain-update rest.requests rest.disk_queue_head a r (x ∷ before) off left)),
    )
