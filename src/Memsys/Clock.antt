-- ===== src/Memsys/Clock.antt =====
-- kernel/memsys.c: the loop of `evict_page`, when it ends and what it finds.
use gem_os_extension.Base.{
  ℕ, zero, suc, ◌<◌, ◌≡◌, ◌≢◌, refl, ◌⊎◌, Option, none, some, arith, update, Outcome, done, spin,
}
use gem_os_extension.Kernel.{FrameEntry, Kernel}
use gem_os_extension.Proc.{Table}
use gem_os_extension.Memsys.Table.{max_frames}
use gem_os_extension.Memsys.Evict.{Scan, owner_level, look_at, advance, clock_loop}

-- With no frame in use that has an owner the loop turns forever: it is still turning after any
-- number of rounds. (The lock of the frame table is held all the while.)
pub clock_loop-spin :
    (t : Table) (start fuel : ℕ) (s : Scan)
    → ((i : ℕ) → owner_level t (s.table i) ≡ none)
    → s.victim ≡ none
    → clock_loop t start fuel s ≡ spin
unfolding clock_loop
clock_loop-spin t start zero s idle none_yet = refl
clock_loop-spin t start (suc fuel) s idle none_yet =
    let here = idle s.hand in
    let later = clock_loop-spin t start fuel (advance s) idle none_yet in
    ground (arith, here, later)

-- What holds at each turn of the loop: ownership is as in the table `before`, and a victim is a
-- frame in use whose reference bit is clear.
record Turns (t : Table) (before : ℕ → FrameEntry) (s : Scan) : Type 0 where
  same : (i : ℕ) → owner_level t (s.table i) ≡ owner_level t (before i)
  inside : s.hand < max_frames
  found :
      ((s.victim ≡ none) × (s.lowest_priority ≡ none))
      ⊎ ((v : ℕ) × (s.victim ≡ some v)
          × (v < max_frames)
          × (owner_level t (before v) ≢ none)
          × ((s.table v).ref_bit ≡ 0))

look_at-same :
    (t : Table) (s : Scan) (level : Option ℕ) (i : ℕ)
    → owner_level t ((look_at level s).table i) ≡ owner_level t (s.table i)
look_at-same t s none i = refl
look_at-same t s (some l) i = ground arith

-- The three things that a turn can do to a frame in use.
clear_at : Scan → Scan
clear_at s = record s { table = update s.table s.hand (record (s.table s.hand) { ref_bit = 0 }) }

take_at : ℕ → Scan → Scan
take_at l s = record s { victim = some s.hand; lowest_priority = some l }

-- What the loop comes to where it ends: a frame of the table that is in use, its reference bit
-- clear; ownership is as it was.
pub record Chosen (t : Table) (before : ℕ → FrameEntry) (r : Outcome Scan) : Type 0 where
  pub final : Scan
  pub victim : ℕ
  pub returns : r ≡ done final
  pub is_victim : final.victim ≡ some victim
  pub below : victim < max_frames
  pub owned : owner_level t (before victim) ≢ none
  pub unreferenced : (final.table victim).ref_bit ≡ 0
  pub same : (i : ℕ) → owner_level t (final.table i) ≡ owner_level t (before i)
