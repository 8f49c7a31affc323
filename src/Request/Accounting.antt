-- ===== src/Request/Accounting.antt =====
-- kernel/disk_sched.c: the statistics of served requests.
use gem_os_extension.Base.{ℕ, ◌+◌, ◌%◌, ◌^◌, ◌≡◌, ◌≢◌, refl, sym, ap, ◌∙◌, subst, arith, update}
use gem_os_extension.Kernel.{Kernel}
use gem_os_extension.Disk.Queue.{
  Disk, RequestType, disk_read, disk_write, calculate_disk_latency, disk_rotational_delay,
}
use gem_os_extension.Request.{process_disk_request, update_disk_stats, count_request}

-- The operations counted are the reads and the writes counted, in 64 bits.
abbrev pub Balanced : Disk → Type 0
Balanced d = d.disk_operations ≡ (d.disk_reads + d.disk_writes) % 2 ^ 64

count_request-Balanced :
    (type : RequestType) (latency : ℕ) (d : Disk)
    → Balanced d
    → Balanced (count_request type latency d)
unfolding count_request
count_request-Balanced disk_read latency d h = omega arith
count_request-Balanced disk_write latency d h = omega arith

count_request-head :
    (type : RequestType) (latency : ℕ) (d : Disk)
    → (count_request type latency d).current_disk_head ≡ d.current_disk_head
unfolding count_request
count_request-head disk_read latency d = refl
count_request-head disk_write latency d = refl

pub process_disk_request-disk :
    (a : ℕ) (k : Kernel)
    → a ≢ 0
    → let req = k.disk.requests a in
      (process_disk_request a k).disk
      ≡ count_request req.type
          (calculate_disk_latency k.disk req.disk_id req.block_on_disk)
          (record k.disk {
            current_disk_head = update k.disk.current_disk_head req.disk_id req.block_on_disk;
          })
unfolding process_disk_request update_disk_stats
process_disk_request-disk a k h = ground arith

-- Serving a request that is not null keeps the count of operations at the reads and writes counted,
-- in 64 bits, moves the head of the request's disk to the request's block and no other, and so the
-- same request would next cost the rotational delay alone.
pub process_disk_request-Balanced :
    (a : ℕ) (k : Kernel)
    → Balanced k.disk
    → a ≢ 0
    → let req = k.disk.requests a in
      let d = (process_disk_request a k).disk in
      Balanced d
      × (d.current_disk_head ≡ update k.disk.current_disk_head req.disk_id req.block_on_disk)
      × (calculate_disk_latency d req.disk_id req.block_on_disk ≡ disk_rotational_delay)
unfolding calculate_disk_latency
process_disk_request-Balanced a k b h =
    let req = k.disk.requests a in
    let latency = calculate_disk_latency k.disk req.disk_id req.block_on_disk in
    let heads = update k.disk.current_disk_head req.disk_id req.block_on_disk in
    let moved = record k.disk { current_disk_head = heads } in
    let same = process_disk_request-disk a k h in
    let head : (process_disk_request a k).disk.current_disk_head ≡ heads =
      ap (λ (d : Disk). d.current_disk_head) same ∙ count_request-head req.type latency moved in
    let at : (process_disk_request a k).disk.current_disk_head req.disk_id ≡ req.block_on_disk =
      ap (λ (f : ℕ → ℕ). f req.disk_id) head ∙ ground arith in
    (
      subst Balanced (sym same) (count_request-Balanced req.type latency moved b),
      head,
      ground (arith, at),
    )
