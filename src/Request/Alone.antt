-- ===== src/Request/Alone.antt =====
-- kernel/disk_sched.c: a request that goes into an empty queue is the one that is served next.
use gem_os_extension.Base.{
  ℕ, ◌+◌, ◌%◌, ◌^◌, ◌<◌, ◌≡◌, ◌≢◌, ◌⊎◌, refl, sym, ap, ap₂, ◌∙◌, subst, inl, inr, length,
  length-append, Bool, true, false, not, ◌==◌, if◌then◌else◌, Option, none, some, List, [], ◌∷◌,
  ◌++◌, arith, update, update_self, pos, Outcome, done,
}
use gem_os_extension.Kernel.{Kernel}
use gem_os_extension.Proc.{Proc, Table}
use gem_os_extension.Kalloc.{kalloc}
use gem_os_extension.Kalloc.Pages.{IsPage, kfree-IsPage}
use gem_os_extension.Disk.Raid.{Mapping, raid_map_logical_to_physical}
use gem_os_extension.Disk.Queue.{
  Disk, DiskRequest, RequestType, disk_read, disk_write, calculate_disk_latency, disk_sched_fcfs,
  disk_sched_sstf, enqueue, schedule_fcfs, schedule_sstf, schedule_next_request,
}
use gem_os_extension.Disk.Queue.Chain.{Chain}
use gem_os_extension.Disk.Queue.Fcfs.{IsQueue, enqueue-IsQueue}
use gem_os_extension.Disk.Queue.Sstf.{schedule_sstf-Served, apart_from_link}
use gem_os_extension.Request.Accounting.{process_disk_request-disk}
use gem_os_extension.Request.{
  add_disk_request, process_disk_request, serve_next, max_requests, count_request, count_page,
  new_request, update_disk_stats,
}

-- The policy is one that `setdisksched` accepts.
abbrev pub PolicyOk : Disk → Type 0
PolicyOk d = (d.disk_sched_policy ≡ disk_sched_fcfs) ⊎ (d.disk_sched_policy ≡ disk_sched_sstf)

-- The queue's only request has been taken.
record Taken (d : Disk) (a : ℕ) (r : Option (ℕ × Disk)) : Type 0 where
  rest : Disk
  returns : r ≡ some (a, rest)
  empty : IsQueue rest []
  content : apart_from_link (rest.requests a) ≡ apart_from_link (d.requests a)
  globals : rest ≡ record d {
    requests = rest.requests;
    disk_queue_head = rest.disk_queue_head;
    disk_queue_tail = rest.disk_queue_tail;
  }

fcfs-Taken : (d : Disk) (a : ℕ) → IsQueue d (a ∷ []) → Taken d a (some (schedule_fcfs d))
unfolding schedule_fcfs
fcfs-Taken d a q = record {
  rest = record d { disk_queue_head = 0; disk_queue_tail = 0 };
  returns = ground arith;
  empty = record { chain = refl; apart = tt; tail = refl };
  content = refl;
  globals = refl;
}

singleton_split :
    (a b : ℕ) (before after : List ℕ)
    → a ∷ [] ≡ before ++ b ∷ after
    → (a ≡ b) × (before ≡ []) × (after ≡ [])
singleton_split a b [] after e = ground arith
singleton_split a b (x ∷ before) after e =
    absurd (omega (arith, ap length e, length-append before (b ∷ after)))

sstf-Taken :
    (d : Disk) (a fuel : ℕ) → IsQueue d (a ∷ []) → 1 < fuel → Taken d a (schedule_sstf fuel d)
sstf-Taken d a fuel q f =
    let s = schedule_sstf-Served d fuel a [] q f in
    let cut = singleton_split a s.best s.before s.after s.split in
    let left : Chain s.rest.requests s.rest.disk_queue_head [] =
      subst (Chain s.rest.requests s.rest.disk_queue_head) (ap (λ l. l ++ s.after) cut.1 ∙ cut.2)
        s.chain in
    record {
      rest = s.rest;
      returns = s.returns ∙ ap (λ b. some (b, s.rest)) (sym cut.0);
      empty = record { chain = left; apart = tt; tail = ground (arith, left, s.tail) };
      content = s.content a;
      globals = s.globals;
    }

next-fcfs :
    (fuel : ℕ) (d : Disk)
    → d.disk_sched_policy ≡ disk_sched_fcfs
    → schedule_next_request fuel d ≡ some (schedule_fcfs d)
unfolding schedule_next_request
next-fcfs fuel d h = ground arith

next-sstf :
    (fuel : ℕ) (d : Disk)
    → d.disk_sched_policy ≡ disk_sched_sstf
    → schedule_next_request fuel d ≡ schedule_sstf fuel d
unfolding schedule_next_request
next-sstf fuel d h = ground arith

next-Taken :
    (d : Disk) (a fuel : ℕ)
    → PolicyOk d
    → IsQueue d (a ∷ [])
    → 1 < fuel
    → Taken d a (schedule_next_request fuel d)
next-Taken d a fuel (inl fcfs) q f =
    subst (Taken d a) (sym (next-fcfs fuel d fcfs)) (fcfs-Taken d a q)
next-Taken d a fuel (inr sstf) q f =
    subst (Taken d a) (sym (next-sstf fuel d sstf)) (sstf-Taken d a fuel q f)

abbrev pub is_read : RequestType → Bool
is_read disk_read = true
is_read disk_write = false

-- A 64-bit counter that counts one more, or not.
abbrev pub counted_if : Bool → ℕ → ℕ
counted_if b n = if b then (n + 1) % 2 ^ 64 else n

abbrev pub is_caller : Option ℕ → ℕ → Bool
is_caller none q = false
is_caller (some p) q = p == q

-- A process after a request of its own, a read for a page that is swapped in and a write for one
-- that is swapped out.
abbrev pub charged_for : RequestType → Proc → Proc
charged_for type q = record q {
  pages_swapped_in = if is_read type then q.pages_swapped_in + 1 else q.pages_swapped_in;
  pages_swapped_out = if is_read type then q.pages_swapped_out else q.pages_swapped_out + 1;
}

-- The head of a disk moved to a block, and the operation counted.
abbrev pub counted_disk : RequestType → ℕ → ℕ → Disk → Disk
counted_disk type disk block d = record d {
  current_disk_head = update d.current_disk_head disk block;
  disk_reads = counted_if (is_read type) d.disk_reads;
  disk_writes = counted_if (not (is_read type)) d.disk_writes;
  total_disk_latency = (d.total_disk_latency + calculate_disk_latency d disk block) % 2 ^ 64;
  disk_operations = counted_if true d.disk_operations;
}

-- The requests and the queue of another state.
abbrev pub with_queue : Disk → Disk → Disk
with_queue d e = record d {
  requests = e.requests;
  disk_queue_head = e.disk_queue_head;
  disk_queue_tail = e.disk_queue_tail;
}

-- What adding a request to an empty queue and serving the next one comes to: the caller's own
-- request is served, once, at the place that its block is mapped to; its page is free again; the
-- queue is empty.
pub record ServedAlone (type : RequestType) (mapped : Mapping) (p : Option ℕ) (k : Kernel)
    (r : Outcome Kernel) : Type 0 where
  pub after : Kernel
  pub returns : r ≡ done after
  pub empty : IsQueue after.disk []
  pub freelist : after.freelist ≡ k.freelist
  pub disk :
      after.disk ≡ with_queue (counted_disk type mapped.out_disk mapped.out_block k.disk) after.disk
  pub charged : after.procs ≡ count_page type p k.procs
  pub procs :
      (q : ℕ) → after.procs q ≡ (if is_caller p q then charged_for type (k.procs q) else k.procs q)
  pub kept : after ≡ record k { freelist = after.freelist; disk = after.disk; procs = after.procs }

count_request-counted :
    (type : RequestType) (disk block : ℕ) (d : Disk)
    → count_request type
        (calculate_disk_latency d disk block)
        (record d { current_disk_head = update d.current_disk_head disk block })
      ≡ counted_disk type disk block d
unfolding count_request
count_request-counted disk_read disk block d = refl
count_request-counted disk_write disk block d = refl

process_disk_request-counted :
    (a : ℕ) (k : Kernel) (r : DiskRequest)
    → a ≢ 0
    → apart_from_link (k.disk.requests a) ≡ apart_from_link r
    → (process_disk_request a k).disk ≡ counted_disk r.type r.disk_id r.block_on_disk k.disk
process_disk_request-counted a k r nz same =
    let req = k.disk.requests a in
    process_disk_request-disk a k nz
    ∙ count_request-counted req.type req.disk_id req.block_on_disk k.disk
    ∙ ap (λ (x : DiskRequest). counted_disk x.type x.disk_id x.block_on_disk k.disk) same

with_queue-counted :
    (type : RequestType) (disk block : ℕ) (d e out : Disk)
    → e ≡ with_queue d e
    → out ≡ counted_disk type disk block e
    → out ≡ with_queue (counted_disk type disk block d) out
unfolding calculate_disk_latency
with_queue-counted type disk block d e out globals h =
    let place : out ≡ with_queue (counted_disk type disk block d) e =
      h ∙ ap (counted_disk type disk block) globals in
    place ∙ ap (with_queue (counted_disk type disk block d)) (sym place)

count_page-procs :
    (type : RequestType) (p : Option ℕ) (t : Table) (q : ℕ)
    → count_page type p t q ≡ (if is_caller p q then charged_for type (t q) else t q)
unfolding count_page
count_page-procs disk_read none t q = refl
count_page-procs disk_write none t q = refl
count_page-procs disk_read (some p) t q = ground arith
count_page-procs disk_write (some p) t q = ground arith

add_disk_request-done :
    (type : RequestType) (block buffer page : ℕ) (p : Option ℕ) (k : Kernel) (rest : List ℕ)
    → k.freelist ≡ page ∷ rest
    → (raid_map_logical_to_physical k.disk.raid_mode block 0 0).status ≡ pos 0
    → let mapped = raid_map_logical_to_physical k.disk.raid_mode block 0 0 in
      add_disk_request type block buffer p k
      ≡ done (
        pos 0,
        record k {
          freelist = rest;
          disk = enqueue page (new_request type block buffer p mapped k) k.disk;
        },
      )
unfolding add_disk_request kalloc
add_disk_request-done type block buffer page p k rest free ok = ground arith

serve_next-done :
    (a : ℕ) (k : Kernel) (d : Disk)
    → schedule_next_request max_requests k.disk ≡ some (a, d)
    → a ≢ 0
    → IsPage k.kernel_end a
    → let k' = process_disk_request a (record k { disk = d }) in
      serve_next k ≡ done (record k' { freelist = a ∷ k.freelist })
unfolding serve_next process_disk_request update_disk_stats
serve_next-done a k d next nz page =
    ground (arith, next, (kfree-IsPage k.kernel_end a k.freelist).1 page)

enqueue-first :
    (a : ℕ) (r : DiskRequest) (d : Disk)
    → IsQueue d []
    → enqueue a r d
      ≡ record d { requests = update d.requests a r; disk_queue_head = a; disk_queue_tail = a }
unfolding enqueue
enqueue-first a r d q = ground (arith, q.tail)

count_request-queue :
    (type : RequestType) (latency : ℕ) (d : Disk)
    → let d' = count_request type latency d in
      (d'.disk_queue_head ≡ d.disk_queue_head) × (d'.disk_queue_tail ≡ d.disk_queue_tail)
unfolding count_request
count_request-queue disk_read latency d = (refl, refl)
count_request-queue disk_write latency d = (refl, refl)

process_disk_request-IsQueue :
    (a : ℕ) (k : Kernel) → a ≢ 0 → IsQueue k.disk [] → IsQueue (process_disk_request a k).disk []
process_disk_request-IsQueue a k nz q =
    let req = k.disk.requests a in
    let latency = calculate_disk_latency k.disk req.disk_id req.block_on_disk in
    let moved = record k.disk {
      current_disk_head = update k.disk.current_disk_head req.disk_id req.block_on_disk;
    } in
    let same = process_disk_request-disk a k nz in
    let (head, tail) = count_request-queue req.type latency moved in
    record {
      chain = ap (λ (d : Disk). d.disk_queue_head) same ∙ head ∙ q.chain;
      apart = tt;
      tail = ap (λ (d : Disk). d.disk_queue_tail) same ∙ tail ∙ q.tail;
    }

process_disk_request-rest :
    (a : ℕ) (k : Kernel)
    → a ≢ 0
    → let req = k.disk.requests a in
      let k' = process_disk_request a k in
      (k'.procs ≡ count_page req.type req.proc k.procs) × (k'.freelist ≡ k.freelist)
unfolding process_disk_request update_disk_stats
process_disk_request-rest a k nz = ground arith

process_disk_request-kept :
    (a : ℕ) (k : Kernel) (l : List ℕ)
    → a ≢ 0
    → let k' = process_disk_request a k in
      record k' { freelist = l } ≡ record k { freelist = l; disk = k'.disk; procs = k'.procs }
unfolding process_disk_request update_disk_stats
process_disk_request-kept a k l nz = ground arith

-- A request that is added while the queue is empty, with a free page (not at 0) for it, a block
-- that the RAID mapping accepts and one of the two policies, is the one that is served next: its
-- page is free again afterwards and the queue is empty again; the head of the disk that the block is
-- mapped to is at its block, and one operation of the request's type is counted with its latency;
-- the process that made the request has one page more swapped in, for a read, or swapped out, for a
-- write. No other process, no other field of the disk and no other global changes, but for the
-- requests that are not queued.
pub add-serve :
    (type : RequestType) (block buffer page : ℕ) (p : Option ℕ) (k : Kernel) (rest : List ℕ)
    → IsQueue k.disk []
    → PolicyOk k.disk
    → k.freelist ≡ page ∷ rest
    → IsPage k.kernel_end page
    → page ≢ 0
    → (raid_map_logical_to_physical k.disk.raid_mode block 0 0).status ≡ pos 0
    → (k1 : Kernel) × (add_disk_request type block buffer p k ≡ done (pos 0, k1))
      × ServedAlone type
          (raid_map_logical_to_physical k.disk.raid_mode block 0 0)
          p
          k
          (serve_next k1)
add-serve type block buffer page p k rest q policy free ip nz ok =
    let mapped = raid_map_logical_to_physical k.disk.raid_mode block 0 0 in
    let req = new_request type block buffer p mapped k in
    let d1 = enqueue page req k.disk in
    let k1 = record k { freelist = rest; disk = d1 } in
    let first = enqueue-first page req k.disk q in
    let queued : IsQueue d1 (page ∷ []) = enqueue-IsQueue k.disk page req [] q nz tt refl in
    let policy1 : PolicyOk d1 = subst PolicyOk (sym first) policy in
    let taken = next-Taken d1 page max_requests policy1 queued (omega arith) in
    (
      k1,
      add_disk_request-done type block buffer page p k rest free ok,
      let k2 = record k1 { disk = taken.rest } in
          let out = process_disk_request page k2 in
          let empty = process_disk_request-IsQueue page k2 nz taken.empty in
          let (charged, kept) = process_disk_request-rest page k2 nz in
          let same : apart_from_link (taken.rest.requests page) ≡ apart_from_link req =
            taken.content
            ∙ ap (λ (d : Disk). apart_from_link (d.requests page)) first
            ∙ ap apart_from_link (update_self k.disk.requests page req) in
          let paid : out.procs ≡ count_page type p k.procs =
            charged
            ∙ ap₂ (λ t o. count_page t o k.procs) (ap (λ (r : DiskRequest). r.type) same)
                (ap (λ (r : DiskRequest). r.proc) same) in
          record {
            after = record out { freelist = page ∷ rest };
            returns = serve_next-done page k1 taken.rest taken.returns nz ip;
            empty = empty;
            freelist = sym free;
            disk =
                with_queue-counted type mapped.out_disk mapped.out_block k.disk taken.rest out.disk
                  (taken.globals ∙ ap (λ (d : Disk). with_queue d taken.rest) first)
                  (process_disk_request-counted page k2 req nz same);
            procs = λ q. ap (λ (t : Table). t q) paid ∙ count_page-procs type p k.procs q;
            kept = process_disk_request-kept page k2 (page ∷ rest) nz;
            charged = paid;
          },
    )
