-- ===== src/Bcache.antt =====
-- kernel/bio.c: the buffer cache. A pointer to a buffer is its index in `bcache.buf`, and NBUF is
-- the list's head. The sleep lock of a buffer is an answer of `holdingsleep`.
pub mod Ring
pub mod Scan
pub mod Unique
use gem_os_extension.Base.{
  ℕ, zero, suc, ◌+◌, ◌-◌, ◌*◌, ◌%◌, ◌^◌, Bool, true, false, not, ◌&&◌, Option, none, some, ltb,
  ◌==◌, if◌then◌else◌, update, Outcome, done, panic, spin, ◌>>=◌,
}
use gem_os_extension.Log.{maxopblocks}

abbrev pub nbuf : ℕ
nbuf = maxopblocks * 3

-- `&bcache.head`
abbrev pub head : ℕ
head = nbuf

-- `struct buf`; its links stand in `Bcache`.
pub record Buf (B : Type 0) : Type 0 where
  pub valid : Bool
  pub dev : ℕ
  pub blockno : ℕ
  pub refcnt : ℕ
  pub contents : B

-- `bcache`, with the disk.
pub record Bcache (B : Type 0) : Type 0 where
  pub next : ℕ → ℕ
  pub prev : ℕ → ℕ
  pub buf : ℕ → Buf B
  pub disk : ℕ → B

module _ {B : Type 0} where
  -- A buffer is linked in behind the head.
  unfoldable pub link_first : ℕ → Bcache B → Bcache B
  link_first b c =
      let first = c.next head in
      record c {
        next = update (update c.next b first) head b;
        prev = update (update c.prev b head) first b;
      }

  unfoldable pub unlink : ℕ → Bcache B → Bcache B
  unlink b c =
      let prev1 = update c.prev (c.next b) (c.prev b) in
      record c { prev = prev1; next = update c.next (prev1 b) (c.next b) }

  -- The loop of `binit`, `m` rounds from the buffer b on.
  unfoldable pub init_from : ℕ → ℕ → Bcache B → Bcache B
  init_from zero b c = c
  init_from (suc m) b c = init_from m (b + 1) (link_first b c)

  unfoldable pub binit : Bcache B → Bcache B
  binit c =
      init_from nbuf 0 (record c { prev = update c.prev head head; next = update c.next head head })

  abbrev pub caches : ℕ → ℕ → Buf B → Bool
  caches dev blockno b = b.dev == dev && b.blockno == blockno

  -- The loops of `bget`, along `next` and along `prev`; the first argument is the fuel.
  unfoldable pub scan_next : ℕ → (Buf B → Bool) → ℕ → Bcache B → Outcome (Option ℕ)
  scan_next zero test b c = spin
  scan_next (suc fuel) test b c =
      let rest = scan_next fuel test (c.next b) c in
      if b == head then done none else if test (c.buf b) then done (some b) else rest

  unfoldable pub scan_prev : ℕ → (Buf B → Bool) → ℕ → Bcache B → Outcome (Option ℕ)
  scan_prev zero test b c = spin
  scan_prev (suc fuel) test b c =
      let rest = scan_prev fuel test (c.prev b) c in
      if b == head then done none else if test (c.buf b) then done (some b) else rest

  abbrev pub is_unused : Buf B → Bool
  is_unused b = b.refcnt == 0

  -- The buffer is used once more, as by `bpin`.
  unfoldable pub bpin : ℕ → Bcache B → Bcache B
  bpin b c = record c {
    buf = update c.buf b (record (c.buf b) { refcnt = ((c.buf b).refcnt + 1) % 2 ^ 32 });
  }

  unfoldable pub bunpin : ℕ → Bcache B → Bcache B
  bunpin b c = record c {
    buf = update c.buf b (record (c.buf b) { refcnt = ((c.buf b).refcnt + (2 ^ 32 - 1)) % 2 ^ 32 });
  }

  unfoldable pub recycle : ℕ → ℕ → ℕ → Bcache B → Bcache B
  recycle dev blockno b c = record c {
    buf =
        update c.buf b
          (record (c.buf b) { dev = dev; blockno = blockno; valid = false; refcnt = 1 });
  }

  -- The buffer and the state when the lock of the cache is released.
  unfoldable pub bget : ℕ → ℕ → Bcache B → Outcome (ℕ × Bcache B)
  bget dev blockno c = scan_next (nbuf + 1) (caches dev blockno) (c.next head) c >>= λ hit.
      elim hit [
        | some b ↦ done (b, bpin b c)
        | none ↦ scan_prev (nbuf + 1) is_unused (c.prev head) c >>= λ unused. elim unused [
          | some b ↦ done (b, recycle dev blockno b c)
          | none ↦ panic
        ]
      ]

  -- `virtio_disk_rw(b, 0)` and the note that the buffer is valid.
  unfoldable pub fill : ℕ → Bcache B → Bcache B
  fill b c =
      let old = c.buf b in
      record c {
        buf = update c.buf b (record old {
          contents = if old.valid then old.contents else c.disk old.blockno;
          valid = true;
        });
      }

  unfoldable pub bread : ℕ → ℕ → Bcache B → Outcome (ℕ × Bcache B)
  bread dev blockno c = bget dev blockno c >>= λ (b, c1). done (b, fill b c1)

  unfoldable pub bwrite : Bool → ℕ → Bcache B → Outcome (Bcache B)
  bwrite holdingsleep b c =
      if not holdingsleep
      then panic
      else done (record c { disk = update c.disk (c.buf b).blockno (c.buf b).contents })

  unfoldable pub brelse : Bool → ℕ → Bcache B → Outcome (Bcache B)
  unfolding bunpin
  brelse holdingsleep b c =
      let c1 = bunpin b c in
      if not holdingsleep
      then panic
      else if (c1.buf b).refcnt == 0
      then done (link_first b (unlink b c1))
      else done c1
