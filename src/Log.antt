-- ===== src/Log.antt =====
-- kernel/log.c: the write-ahead log. `cache` is what a read of each block gives, by way of the
-- buffer cache, and `disk` what is on the disk. The power may fail after any write to the disk:
-- `power` is how many writes still reach it.
pub mod Recovery
pub mod Commit
pub mod Crash
pub mod Space
use gem_os_extension.Base.{
  ℕ, zero, suc, ◌+◌, ◌-◌, ◌*◌, ◌<◌, ◌≤◌, ◌≡◌, Bool, true, false, Option, none, some, ltb, leb, ◌==◌,
  if◌then◌else◌, update, Outcome, done, panic, ◌>>=◌,
}

abbrev pub maxopblocks : ℕ
maxopblocks = 10

abbrev pub logblocks : ℕ
logblocks = maxopblocks * 3

-- `struct logheader`
pub record LogHeader : Type 0 where
  pub n : ℕ
  pub block : ℕ → ℕ

-- The cast of a block's bytes to `struct logheader`: a header that has its entries within
-- LOGBLOCKS is there to be read, once it is written into a block.
pub record HeaderFormat (B : Type 0) : Type 0 where
  pub as_header : B → LogHeader
  pub put_header : LogHeader → B → B
  pub put_n : (h : LogHeader) (b : B) → h.n ≤ logblocks → (as_header (put_header h b)).n ≡ h.n
  pub put_block :
      (h : LogHeader) (b : B) (i : ℕ)
      → h.n ≤ logblocks
      → i < h.n
      → (as_header (put_header h b)).block i ≡ h.block i

-- `struct log`, with the blocks.
pub record Log (B : Type 0) : Type 0 where
  pub start : ℕ
  pub outstanding : ℕ
  pub committing : Bool
  pub lh : LogHeader
  pub cache : ℕ → B
  pub disk : ℕ → B
  pub power : ℕ

-- The index of a block in the log, or `n` if it is not there: the loop of `log_write`.
unfoldable pub find_block : (ℕ → ℕ) → ℕ → ℕ → ℕ → ℕ
find_block block blockno zero i = i
find_block block blockno (suc m) i =
    let rest = find_block block blockno m (i + 1) in if block i == blockno then i else rest

module _ {B : Type 0} where
  -- The new contents of a block, and the write to the disk, if there is power.
  unfoldable pub bwrite : ℕ → B → Log B → Log B
  bwrite b data_ l = record l {
    cache = update l.cache b data_;
    disk = if l.power == 0 then l.disk else update l.disk b data_;
    power = l.power - 1;
  }

  -- The loop of `install_trans`, `m` rounds from `tail` on.
  unfoldable pub install_from : ℕ → ℕ → Log B → Log B
  install_from zero tail l = l
  install_from (suc m) tail l =
      install_from m (tail + 1) (bwrite (l.lh.block tail) (l.cache (l.start + tail + 1)) l)

  unfoldable pub install_trans : Log B → Log B
  unfolding install_from
  install_trans l = install_from l.lh.n 0 l

  -- The loop of `write_log`.
  unfoldable pub write_from : ℕ → ℕ → Log B → Log B
  write_from zero tail l = l
  write_from (suc m) tail l =
      write_from m (tail + 1) (bwrite (l.start + tail + 1) (l.cache (l.lh.block tail)) l)

  unfoldable pub write_log : Log B → Log B
  unfolding write_from
  write_log l = write_from l.lh.n 0 l

  -- The log is emptied in memory.
  abbrev pub clear_n : Log B → Log B
  clear_n l = record l { lh = record l.lh { n = 0 } }

  -- `none` is a sleep.
  unfoldable pub begin_op : Log B → Option (Log B)
  begin_op l =
      if l.committing
      then none
      else if ltb logblocks (l.lh.n + (l.outstanding + 1) * maxopblocks)
      then none
      else some (record l { outstanding = l.outstanding + 1 })

  -- The buffer with its new contents is recorded.
  unfoldable pub log_write : ℕ → B → Log B → Outcome (Log B)
  unfolding find_block
  log_write blockno data_ l =
      let i = find_block l.lh.block blockno l.lh.n 0 in
      if leb logblocks l.lh.n
      then panic
      else if ltb l.outstanding 1
      then panic
      else done (record l {
        cache = update l.cache blockno data_;
        lh = record {
          n = if i == l.lh.n then l.lh.n + 1 else l.lh.n;
          block = update l.lh.block i blockno;
        };
      })

  -- The region of `end_op` under the lock, with `do_commit`.
  unfoldable pub end_locked : Log B → Outcome (Log B × Bool)
  end_locked l =
      let left = record l { outstanding = l.outstanding - 1 } in
      if l.committing
      then panic
      else if left.outstanding == 0
      then done (record left { committing = true }, true)
      else done (left, false)

  -- The last region of `end_op` under the lock, after the commit.
  abbrev pub end_commit : Log B → Log B
  end_commit l = record l { committing = false }

module _ {B : Type 0} (f : HeaderFormat B) where
  unfoldable pub read_head : Log B → Log B
  read_head l = record l { lh = f.as_header (l.cache l.start) }

  unfoldable pub write_head : Log B → Log B
  write_head l = bwrite l.start (f.put_header l.lh (l.cache l.start)) l

  unfoldable pub recover_from_log : Log B → Log B
  unfolding read_head write_head
  recover_from_log l = write_head (clear_n (install_trans (read_head l)))

  unfoldable pub commit : Log B → Log B
  unfolding write_head
  commit l =
      if ltb 0 l.lh.n then write_head (clear_n (install_trans (write_head (write_log l)))) else l

  -- Every `end_op` ends an operation that is outstanding. The commit and the region after it are
  -- steps of their own, in which other processes may call `begin_op`.
  unfoldable pub end_op : Log B → Outcome (Log B)
  end_op l = end_locked l >>= λ (l1, do_commit).
      if do_commit then done (end_commit (commit l1)) else done l1

  -- The machine starts: the cache is empty, so that a read gives what is on the disk.
  unfoldable pub initlog : ℕ → Log B → Log B
  initlog start l = recover_from_log (record l { start = start; cache = l.disk })
