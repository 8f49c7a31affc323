-- ===== src/Disk/Queue/Sstf.antt =====
-- kernel/disk_sched.c: `schedule_sstf` takes the best request out of the queue. Where that request
-- was the last of several, the tail pointer still points to it.
use gem_os_extension.Base.{
  ℕ, zero, suc, ◌≡◌, ◌<◌, refl, sym, ap, ◌∙◌, subst, ◌≢◌, Option, some, Bool-cases, inl, inr, List,
  [], ◌∷◌, ◌++◌, arith, update, All, last_or, Distinct, length, ◌==◌, if◌then◌else◌,
}
use gem_os_extension.Disk.Queue.{
  Disk, DiskRequest, Scan, is_better, scan_step, scan_loop, scan_start, unlink, schedule_sstf,
}
use gem_os_extension.Disk.Queue.Chain.{
  Chain, Chain-update, Chain-unlink, Chain-last_part, Distinct-middle,
}
use gem_os_extension.Disk.Queue.Fcfs.{IsQueue}
use gem_os_extension.Disk.Queue.Best.{IsBest, Beats, Ties, scan_loop-IsBest}

-- The scan's first round looks at the request that it starts with.
first_round :
    (d : Disk) (x : ℕ) (xs : List ℕ)
    → Chain d.requests d.disk_queue_head (x ∷ xs)
    → (scan_step d (scan_start d) ≡ record (scan_start d) {
      prev_curr = d.disk_queue_head;
      curr = (d.requests d.disk_queue_head).next;
    })
unfolding scan_step scan_start is_better
first_round d x xs c = ground arith

first-IsBest :
    (d : Disk) (x : ℕ) (xs : List ℕ)
    → Chain d.requests d.disk_queue_head (x ∷ xs)
    → IsBest d (x ∷ []) (scan_step d (scan_start d))
unfolding scan_start
first-IsBest d x xs c = rw (first_round d x xs c) (record {
  before = [];
  after = [];
  split = ap (λ z. z ∷ []) (sym c.0);
  prev = refl;
  last = c.0;
  least = refl;
  first = tt;
  rest = tt;
})

start-ne :
    (d : Disk) (x : ℕ) (xs : List ℕ)
    → Chain d.requests d.disk_queue_head (x ∷ xs)
    → (scan_start d).curr ≢ 0
unfolding scan_start
start-ne d x xs c e = c.1 (sym c.0 ∙ e)

-- With as much fuel as there are requests and one round more, the scan ends.
scan_finds :
    (d : Disk) (fuel x : ℕ) (xs : List ℕ)
    → Chain d.requests d.disk_queue_head (x ∷ xs)
    → length (x ∷ xs) < fuel
    → (t : Scan) × (scan_loop d fuel (scan_start d) ≡ some t) × IsBest d (x ∷ xs) t
unfolding scan_loop
scan_finds d zero x xs c f = elim f [ ]
scan_finds d (suc fuel) x xs c f =
    let next : Chain d.requests (scan_step d (scan_start d)).curr xs =
      rw (first_round d x xs c, c.0) c.2 in
    let (t, e, b) =
      scan_loop-IsBest d fuel (x ∷ []) xs (scan_step d (scan_start d)) (first-IsBest d x xs c) next
        (omega arith) in
    (t, ground (arith, e, start-ne d x xs c), b)

unlink-rest :
    (d : Disk) (b l : ℕ)
    → l ≢ 0
    → let linked = update d.requests l (record (d.requests l) { next = (d.requests b).next }) in
      unlink d b l ≡ record d {
        requests = update linked b (record (linked b) { next = 0 });
        disk_queue_tail = if d.disk_queue_head == 0 then 0 else d.disk_queue_tail;
      }
unfolding unlink
unlink-rest d b l h = ground arith

unlink-Chain_first :
    (d : Disk) (b : ℕ) (after : List ℕ)
    → Distinct (b ∷ after)
    → Chain d.requests d.disk_queue_head (b ∷ after)
    → let d' = unlink d b 0 in Chain d'.requests d'.disk_queue_head after
unfolding unlink
unlink-Chain_first d b after apart c =
    Chain-update d.requests (d.requests b).next b _ after apart.0 c.2

unlink-Chain :
    (d : Disk) (b : ℕ) (before after : List ℕ)
    → Distinct (before ++ b ∷ after)
    → Chain d.requests d.disk_queue_head (before ++ b ∷ after)
    → let d' = unlink d b (last_or 0 before) in
      Chain d'.requests d'.disk_queue_head (before ++ after)
unlink-Chain d b [] after apart c = unlink-Chain_first d b after apart c
unlink-Chain d b (x ∷ before) after apart c =
    let l = last_or x before in
    let linked = update d.requests l (record (d.requests l) { next = (d.requests b).next }) in
    let nonzero : l ≢ 0 = Chain-last_part d.requests d.disk_queue_head x before (b ∷ after) c in
    subst (λ (z : Disk). Chain z.requests z.disk_queue_head (x ∷ before ++ after))
      (sym (unlink-rest d b l nonzero))
      (Chain-update linked d.disk_queue_head b (record (linked b) { next = 0 })
        (x ∷ before ++ after) (Distinct-middle (x ∷ before) after b apart).1
        (Chain-unlink d.requests d.disk_queue_head x b before after apart c))

-- A request without its place in the queue.
abbrev pub apart_from_link : DiskRequest → DiskRequest
apart_from_link r = record r { next = 0 }

-- What `schedule_sstf` leaves of the queue `xs`: the result, and the globals behind it.
pub record Served (d : Disk) (xs : List ℕ) (r : Option (ℕ × Disk)) : Type 0 where
  pub best : ℕ
  pub rest : Disk
  pub before : List ℕ
  pub after : List ℕ
  pub returns : r ≡ some (best, rest)
  pub split : xs ≡ before ++ best ∷ after
  pub first : All (Beats d best) before
  pub least : All (Ties d best) after
  pub chain : Chain rest.requests rest.disk_queue_head (before ++ after)
  pub apart : Distinct (before ++ after)
  pub content : (a : ℕ) → apart_from_link (rest.requests a) ≡ apart_from_link (d.requests a)
  pub globals : rest ≡ record d {
    requests = rest.requests;
    disk_queue_head = rest.disk_queue_head;
    disk_queue_tail = rest.disk_queue_tail;
  }
  pub tail : rest.disk_queue_tail ≡ (if rest.disk_queue_head == 0 then 0 else d.disk_queue_tail)

schedule_sstf-unlink :
    (d : Disk) (fuel x : ℕ) (xs : List ℕ) (s : Scan)
    → Chain d.requests d.disk_queue_head (x ∷ xs)
    → scan_loop d fuel (scan_start d) ≡ some s
    → schedule_sstf fuel d ≡ some (s.best, unlink d s.best s.prev_best)
unfolding schedule_sstf
schedule_sstf-unlink d fuel x xs s c e = ground arith

unlink-tail :
    (d : Disk) (b l : ℕ)
    → let d' = unlink d b l in
      d'.disk_queue_tail ≡ (if d'.disk_queue_head == 0 then 0 else d.disk_queue_tail)
unfolding unlink
unlink-tail d b l = refl

relink-content :
    (mem : ℕ → DiskRequest) (l n a : ℕ)
    → apart_from_link (update mem l (record (mem l) { next = n }) a) ≡ apart_from_link (mem a)
relink-content mem l n a = ground arith

-- Only the link of a request changes, and of the globals only those of the queue.
unlink-content :
    (d : Disk) (b l a : ℕ)
    → apart_from_link ((unlink d b l).requests a) ≡ apart_from_link (d.requests a)
unfolding unlink
unlink-content d b l a = elim (Bool-cases (l == 0)) [
  | inl first ↦ rw first (relink-content d.requests b 0 a)
  | inr behind ↦
      let linked = update d.requests l (record (d.requests l) { next = (d.requests b).next }) in
      rw behind (relink-content linked b 0 a ∙ relink-content d.requests l (d.requests b).next a)
]

unlink-globals :
    (d : Disk) (b l : ℕ)
    → let d' = unlink d b l in
      d' ≡ record d {
        requests = d'.requests;
        disk_queue_head = d'.disk_queue_head;
        disk_queue_tail = d'.disk_queue_tail;
      }
unfolding unlink
unlink-globals d b l = refl

-- On a queue that is not empty, with more fuel than requests, `schedule_sstf` takes out one request
-- and returns it: each request before it in the queue is farther from its disk's head, or as far and
-- of a greater level number, and none behind it is nearer, or as near and of a smaller level number.
-- The list holds the other requests in their order, with all they said but the links; the other
-- globals of the disk stay; and the tail is 0 if the list is empty now, or else as it was.
pub schedule_sstf-Served :
    (d : Disk) (fuel x : ℕ) (xs : List ℕ)
    → IsQueue d (x ∷ xs)
    → length (x ∷ xs) < fuel
    → Served d (x ∷ xs) (schedule_sstf fuel d)
schedule_sstf-Served d fuel x xs q f =
    let (s, e, b) = scan_finds d fuel x xs q.chain f in
    let apart : Distinct (b.before ++ s.best ∷ b.after) = subst Distinct b.split q.apart in
    record {
      best = s.best;
      rest = unlink d s.best s.prev_best;
      before = b.before;
      after = b.after;
      returns = schedule_sstf-unlink d fuel x xs s q.chain e;
      split = b.split;
      first = b.first;
      least = b.rest;
      chain = rw b.prev (
          unlink-Chain d s.best b.before b.after apart
            (subst (Chain d.requests d.disk_queue_head) b.split q.chain));
      apart = (Distinct-middle b.before b.after s.best apart).0;
      content = unlink-content d s.best s.prev_best;
      globals = unlink-globals d s.best s.prev_best;
      tail = unlink-tail d s.best s.prev_best;
    }
