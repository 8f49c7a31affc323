-- ===== src/Disk/Queue/Fcfs.antt =====
-- kernel/disk_sched.c: the tail insertion of `add_disk_request`, and `schedule_fcfs`.
use gem_os_extension.Base.{
  ℕ, ◌≡◌, sym, ◌≢◌, List, [], ◌∷◌, ◌++◌, arith, update, All, All-append, last_or, last_or-snoc,
  Distinct,
}
use gem_os_extension.Disk.Queue.{DiskRequest, Disk, enqueue, schedule_fcfs}
use gem_os_extension.Disk.Queue.Chain.{Chain, All-last, Chain-last}

-- The queue holds the requests at the addresses `xs`, oldest first.
pub record IsQueue (d : Disk) (xs : List ℕ) : Type 0 where
  pub chain : Chain d.requests d.disk_queue_head xs
  pub apart : Distinct xs
  pub tail : d.disk_queue_tail ≡ last_or 0 xs

Chain-snoc :
    (mem : ℕ → DiskRequest) (p a x : ℕ) (r : DiskRequest) (xs : List ℕ)
    → All (λ y. a ≢ y) (x ∷ xs)
    → a ≢ 0
    → Distinct (x ∷ xs)
    → r.next ≡ 0
    → Chain mem p (x ∷ xs)
    → let filled = update mem a r in
      let last = last_or x xs in
      Chain (update filled last (record (filled last) { next = a })) p (x ∷ xs ++ a ∷ [])
Chain-snoc mem p a x r [] off nz apart e c = ground arith
Chain-snoc mem p a x r (y ∷ xs) off nz apart e c =
    let ne : x ≢ last_or y xs = All-last x y xs apart.0.0 apart.0.1 in
    let na : a ≢ last_or y xs = All-last a y xs off.1.0 off.1.1 in
    let step = Chain-snoc mem (mem x).next a y r xs off.1 nz apart.1 e c.2 in ground (arith, step)

Distinct-snoc : (xs : List ℕ) (a : ℕ) → All (λ y. a ≢ y) xs → Distinct xs → Distinct (xs ++ a ∷ [])
Distinct-snoc [] a off apart = (tt, tt)
Distinct-snoc (x ∷ xs) a off apart = (
  All-append (λ y. x ≢ y) xs (a ∷ []) apart.0 ((λ e. off.0 (sym e)), tt),
  Distinct-snoc xs a off.1 apart.1,
)

-- A request without a link that goes in at a page not null and not yet in the queue is its last,
-- behind those that are there.
pub enqueue-IsQueue :
    (d : Disk) (a : ℕ) (r : DiskRequest) (xs : List ℕ)
    → IsQueue d xs
    → a ≢ 0
    → All (λ y. a ≢ y) xs
    → r.next ≡ 0
    → IsQueue (enqueue a r d) (xs ++ a ∷ [])
unfolding enqueue
enqueue-IsQueue d a r [] q nz off e = ground arith
enqueue-IsQueue d a r (x ∷ xs) q nz off e =
    let made = Chain-snoc d.requests d.disk_queue_head a x r xs off nz q.apart e q.chain in
    ground (
      arith,
      made,
      Distinct-snoc (x ∷ xs) a off q.apart,
      last_or-snoc x xs a,
      Chain-last d.requests d.disk_queue_head x xs q.chain,
    )

abbrev pub head_or : ℕ → List ℕ → ℕ
head_or d [] = d
head_or d (x ∷ xs) = x

abbrev pub rest_of : List ℕ → List ℕ
rest_of [] = []
rest_of (x ∷ xs) = xs

-- First come, first served: `schedule_fcfs` returns the oldest request, or 0 if there is none, and
-- leaves a queue of the others in their order.
pub schedule_fcfs-IsQueue :
    (d : Disk) (xs : List ℕ)
    → IsQueue d xs
    → let (a, d') = schedule_fcfs d in (a ≡ head_or 0 xs) × IsQueue d' (rest_of xs)
unfolding schedule_fcfs
schedule_fcfs-IsQueue d [] q = ground arith
schedule_fcfs-IsQueue d (x ∷ []) q = ground arith
schedule_fcfs-IsQueue d (x ∷ y ∷ xs) q = ground arith
