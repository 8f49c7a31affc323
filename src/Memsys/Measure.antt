-- ===== src/Memsys/Measure.antt =====
-- kernel/memsys.c: how long the loop of `evict_page` can still go on.
use gem_os_extension.Base.{
  ℕ, ◌+◌, ◌-◌, ◌%◌, ◌<◌, ◌≡◌, ◌≢◌, false, ◌&&◌, Option, none, some, arith, ◌==◌, if◌then◌else◌,
}
use gem_os_extension.Memsys.Table.{max_frames}
use gem_os_extension.Memsys.Evict.{Scan, look_at, has_victim, advance}

-- How many rounds are left at most, where the frame `c` can be evicted: to the start, if there is a
-- victim; to `c` and then to the start; or twice to `c`, if its reference bit is set.
unfoldable pub measure : ℕ → ℕ → Scan → ℕ
measure start c s =
    let to_start =
      if s.hand == start then max_frames else (start + max_frames - s.hand) % max_frames in
    let to_frame = (c + max_frames - s.hand) % max_frames in
    if has_victim s
    then to_start
    else if (s.table c).ref_bit == 0
    then to_frame + 32769
    else to_frame + 65537

-- A turn makes it smaller, unless the loop ends with it.
pub measure-step :
    (start c : ℕ) (s : Scan) (level : Option ℕ)
    → start < max_frames
    → c < max_frames
    → s.hand < max_frames
    → (s.hand ≡ c → level ≢ none)
    → (s.victim ≡ none → s.lowest_priority ≡ none)
    → ((advance (look_at level s)).hand == start && has_victim (look_at level s)) ≡ false
    → measure start c (advance (look_at level s)) < measure start c s
unfolding measure
measure-step start c s none bs bc bh cand low go = ground arith
measure-step start c s (some l) bs bc bh cand low go = ground arith

pub measure-positive :
    (start c : ℕ) (s : Scan) → start < max_frames → s.hand < max_frames → 0 < measure start c s
unfolding measure
measure-positive start c s bs bh = ground arith
