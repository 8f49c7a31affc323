-- ===== src/Proc/Calls.antt =====
-- kernel/sysproc.c: the system calls that read the process table.
use gem_os_extension.Base.{
  ℕ, zero, suc, ◌+◌, Bool, not, ◌&&◌, Option, none, some, if◌then◌else◌, ℤ, pos, minus_one, eq_ℤ,
}
use gem_os_extension.Proc.{Proc, Table, nproc, in_state, unused, zombie, has_parent, find_slot}

unfoldable pub count_from : (ℕ → Proc → Bool) → Table → ℕ → ℕ → ℕ
count_from test t zero i = 0
count_from test t (suc n) i = (if test i (t i) then 1 else 0) + count_from test t n (i + 1)

unfoldable pub sys_getnumchild : ℕ → Table → ℕ
sys_getnumchild p t = count_from (λ i q. has_parent q p && not (in_state q.state zombie)) t nproc 0

unfoldable pub sys_getchildsyscount : ℕ → ℤ → Table → ℤ
sys_getchildsyscount p child_pid t =
    elim (find_slot (λ i q. eq_ℤ (pos q.pid) child_pid && has_parent q p) t nproc 0) [
      | none ↦ minus_one
      | some i ↦ pos (t i).syscall_count
    ]

-- `struct mlfqinfo`
pub record MlfqInfo : Type 0 where
  pub level : ℕ
  pub ticks : ℕ → ℕ
  pub times_scheduled : ℕ
  pub total_syscalls : ℕ

-- The record that `sys_getmlfqinfo` copies out; `none` is its -1.
unfoldable pub sys_getmlfqinfo : ℤ → Table → Option MlfqInfo
sys_getmlfqinfo pid t =
    elim (find_slot (λ i p. eq_ℤ (pos p.pid) pid && not (in_state p.state unused)) t nproc 0) [
      | none ↦ none
      | some i ↦
          let p = t i in
          some (record {
            level = p.level;
            ticks = p.ticks;
            times_scheduled = p.times_scheduled;
            total_syscalls = p.syscall_count;
          })
    ]

-- `struct vmstats`
pub record VmStats : Type 0 where
  pub page_faults : ℕ
  pub pages_evicted : ℕ
  pub pages_swapped_in : ℕ
  pub pages_swapped_out : ℕ
  pub resident_pages : ℤ

-- The record that `sys_getvmstats` copies out; `none` is its -1.
unfoldable pub sys_getvmstats : ℤ → Table → Option VmStats
sys_getvmstats pid t =
    elim (find_slot (λ i p. eq_ℤ (pos p.pid) pid && not (in_state p.state unused)) t nproc 0) [
      | none ↦ none
      | some i ↦
          let p = t i in
          some (record {
            page_faults = p.page_faults;
            pages_evicted = p.pages_evicted;
            pages_swapped_in = p.pages_swapped_in;
            pages_swapped_out = p.pages_swapped_out;
            resident_pages = p.resident_pages;
          })
    ]
