-- ===== src/Memsys/Evict.antt =====
-- kernel/memsys.c: the two scans of `evict_page`, which choose the page to evict.
use gem_os_extension.Base.{
  ℕ, zero, suc, ◌+◌, ◌*◌, ◌-◌, ◌%◌, Bool, true, false, ◌&&◌, Option, none, some, ltb, ◌==◌,
  if◌then◌else◌, update, Outcome, done, spin,
}
use gem_os_extension.Kernel.{Kernel, FrameEntry}
use gem_os_extension.Proc.{Table, mlfq_levels}
use gem_os_extension.Memsys.Table.{max_frames}

-- The variables of the loop of `evict_page`; a priority of -1 is none.
pub record Scan : Type 0 where
  pub table : ℕ → FrameEntry
  pub hand : ℕ
  pub victim : Option ℕ
  pub lowest_priority : Option ℕ

-- The level of the process that owns a frame in use.
abbrev pub owner_level : Table → FrameEntry → Option ℕ
owner_level t e =
    if e.in_use == 0 then none else elim e.owner [ none ↦ none | some p ↦ some (t p).level ]

-- The test by which a frame replaces the victim found so far.
abbrev pub is_lower : Option ℕ → ℕ → Bool
is_lower none priority = true
is_lower (some lowest) priority = ltb lowest priority

abbrev pub look_at : Option ℕ → Scan → Scan
look_at none s = s
look_at (some priority) s =
    if (s.table s.hand).ref_bit == 0
    then (if is_lower s.lowest_priority priority
        then record s { victim = some s.hand; lowest_priority = some priority }
        else s)
    else record s { table = update s.table s.hand (record (s.table s.hand) { ref_bit = 0 }) }

-- The first break of the loop: the frame under the hand is a new victim of the last level.
abbrev pub is_last_level : Option ℕ → Scan → Bool
is_last_level none s = false
is_last_level (some priority) s =
    (s.table s.hand).ref_bit == 0
    && is_lower s.lowest_priority priority
    && priority == mlfq_levels - 1

abbrev pub has_victim : Scan → Bool
has_victim s = elim s.victim [ none ↦ false | some i ↦ true ]

abbrev pub advance : Scan → Scan
advance s = record s { hand = (s.hand + 1) % max_frames }

-- The loop of `evict_page`, on fuel.
unfoldable pub clock_loop : Table → ℕ → ℕ → Scan → Outcome Scan
clock_loop t start zero s = spin
clock_loop t start (suc fuel) s =
    let level = owner_level t (s.table s.hand) in
    let seen = look_at level s in
    let rest = clock_loop t start fuel (advance seen) in
    if is_last_level level s
    then done seen
    else if (advance seen).hand == start && has_victim seen
    then done (advance seen)
    else rest

-- Three rounds of the hand, more than the loop makes where it ends.
abbrev pub clock_fuel : ℕ
clock_fuel = 3 * max_frames

-- The second scan, over the `n` frames from `i` on: the victim and its priority.
unfoldable pub scan_all : Table → (ℕ → FrameEntry) → ℕ → ℕ → Option ℕ → Option ℕ → Option ℕ
scan_all t table zero i victim lowest = victim
scan_all t table (suc n) i victim lowest =
    let level = owner_level t (table i) in
    let replaces : Bool = elim level [ none ↦ false | some priority ↦ is_lower lowest priority ] in
    scan_all t table n (i + 1) (if replaces then some i else victim)
      (if replaces then level else lowest)

unfoldable pub scan_start : Kernel → Scan
scan_start k = record {
  table = k.frame_table;
  hand = k.clock_hand;
  victim = none;
  lowest_priority = none;
}
