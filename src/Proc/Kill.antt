-- ===== src/Proc/Kill.antt =====
-- kernel/proc.c: `kkill`, and the mark that it can leave on a free slot.
use gem_os_extension.Base.{
  ℕ, ◌+◌, ◌<◌, ◌≡◌, ◌≢◌, refl, ◌∙◌, inl, inr, true, false, Option-cases, none, some, arith,
  if◌then◌else◌, ℤ, pos, minus_one, eq_ℤ, update,
}
use gem_os_extension.Proc.{
  Table, nproc, in_state, sleeping, runnable, unused, used, find_slot, kkill, claim, claim_slot,
}
use gem_os_extension.Proc.Wake.{find_slot-some, find_slot-none, find_slot-cong}

-- What `kkill` does to the table: it marks one process that has the pid and wakes it if it sleeps,
-- or finds that no process has the pid and changes nothing.
pub data Killed (pid : ℤ) (t : Table) : ℤ × Table → Type 0 where
  marked :
      (i : ℕ) (t' : Table)
      → i < nproc
      → eq_ℤ (pos (t i).pid) pid ≡ true
      → ((j : ℕ) → j < i → eq_ℤ (pos (t j).pid) pid ≡ false)
      → (t' i).killed ≡ true
      → (t' i).state ≡ (if in_state (t i).state sleeping then runnable else (t i).state)
      → ((j : ℕ) → j ≢ i → t' j ≡ t j)
      → Killed pid t (pos 0, t')
  missing : ((j : ℕ) → j < nproc → eq_ℤ (pos (t j).pid) pid ≡ false) → Killed pid t (minus_one, t)

kkill-some :
    (pid : ℤ) (t : Table) (i : ℕ)
    → find_slot (λ i p. eq_ℤ (pos p.pid) pid) t nproc 0 ≡ some i
    → kkill pid t ≡ (
      pos 0,
      update t i (record (t i) {
        killed = true;
        state = if in_state (t i).state sleeping then runnable else (t i).state;
      }),
    )
unfolding kkill
kkill-some pid t i e = rw (e, kkill) refl

kkill-none :
    (pid : ℤ) (t : Table)
    → find_slot (λ i p. eq_ℤ (pos p.pid) pid) t nproc 0 ≡ none
    → kkill pid t ≡ (minus_one, t)
unfolding kkill
kkill-none pid t e = rw (e, kkill) refl

-- `kkill` returns 0 after it has marked the first process that has the pid, and has made it runnable
-- if it slept, and has left every other slot as it was; or it returns -1 and the table as it was,
-- because no slot has the pid.
pub kkill-Killed : (pid : ℤ) (t : Table) → Killed pid t (kkill pid t)
kkill-Killed pid t = elim (Option-cases (find_slot (λ i p. eq_ℤ (pos p.pid) pid) t nproc 0)) [
  | inl e ↦
      rw (kkill-none pid t e)
        (missing (λ j b. find_slot-none _ t nproc 0 e j (omega arith) (omega arith)))
  | inr (i, e) ↦
      let f = find_slot-some (λ i p. eq_ℤ (pos p.pid) pid) t nproc 0 i e in
      rw (kkill-some pid t i e) (
        marked i _ (omega (arith, f.below)) f.passes (λ j b. f.earlier j (omega arith) b)
          (ground arith) (ground arith) (λ j n. ground arith))
]

-- A table as `procinit`, `claim_slot` and `freeproc` keep it: a slot is free exactly if its pid is
-- 0.
pub record IsTable (t : Table) : Type 0 where
  pub unused_pid : (i : ℕ) → (t i).state ≡ unused → (t i).pid ≡ 0
  pub pid_unused : (i : ℕ) → (t i).pid ≡ 0 → (t i).state ≡ unused

claim_slot-some :
    (t : Table) (nextpid i : ℕ)
    → find_slot (λ i p. in_state p.state unused) t nproc 0 ≡ some i
    → claim_slot t nextpid ≡ some (i, update t i (claim nextpid (t i)), nextpid + 1)
unfolding claim_slot
claim_slot-some t nextpid i e = rw (e, claim_slot) refl

claim_slot-find :
    (t claimed : Table) (nextpid i next : ℕ)
    → claim_slot t nextpid ≡ some (i, claimed, next)
    → find_slot (λ i p. in_state p.state unused) t nproc 0 ≡ some i
unfolding claim_slot
claim_slot-find t claimed nextpid i next e =
    elim (Option-cases (find_slot (λ i p. in_state p.state unused) t nproc 0)) [
      | inl none_free ↦ absurd (ground (arith, none_free))
      | inr (j, found) ↦ ground (arith, found)
    ]

-- In a table whose free slots are those with the pid 0, `kkill` of the pid 0 succeeds if a slot is
-- free, and the process that is made next, in the same slot, starts out killed: the mark stays on
-- the free slot, and claiming the slot does not clear it.
pub claim_slot-kkill :
    (t claimed : Table) (nextpid i next : ℕ)
    → IsTable t
    → claim_slot t nextpid ≡ some (i, claimed, next)
    → ((kkill (pos 0) t).0 ≡ pos 0)
      × (c : Table) × (claim_slot (kkill (pos 0) t).1 nextpid ≡ some (i, c, nextpid + 1))
      × ((c i).killed ≡ true)
      × ((c i).state ≡ used)
unfolding claim
claim_slot-kkill t claimed nextpid i next v e =
    let free = claim_slot-find t claimed nextpid i next e in
    let same : (j : ℕ) → eq_ℤ (pos (t j).pid) (pos 0) ≡ in_state (t j).state unused =
      λ j. ground (arith, v.unused_pid j, v.pid_unused j) in
    let found =
      find_slot-cong (λ i p. eq_ℤ (pos p.pid) (pos 0)) (λ i p. in_state p.state unused) t t nproc 0
        same
      ∙ free in
    let k = kkill-some (pos 0) t i found in
    let t' = (kkill (pos 0) t).1 in
    let here : in_state (t i).state unused ≡ true =
      (find_slot-some (λ i p. in_state p.state unused) t nproc 0 i free).passes in
    let states : (j : ℕ) → in_state (t' j).state unused ≡ in_state (t j).state unused =
      λ j. ground (arith, k, here) in
    let still =
      find_slot-cong (λ i p. in_state p.state unused) (λ i p. in_state p.state unused) t' t nproc 0
        states
      ∙ free in
    (
      ground (arith, k),
      update t' i (claim nextpid (t' i)),
      claim_slot-some t' nextpid i still,
      ground (arith, k),
      ground arith,
    )
