-- ===== src/Proc/Family.antt =====
-- kernel/proc.c: `reparent`, `kexit` and `kwait` on the tree of parents and children.
use gem_os_extension.Base.{
  ℕ, zero, suc, ◌+◌, ◌<◌, ◌≡◌, ◌≢◌, inl, false, ◌&&◌, Option, some, arith, ltb, leb, ◌==◌,
  if◌then◌else◌, ℤ, update,
}
use gem_os_extension.Proc.{
  Proc, Table, nproc, has_parent, parent_chan, wakeup, zombie, sleeping, runnable, reparent_slot,
  reparent_from, reparent, exit_process,
}
use gem_os_extension.Proc.Wake.{wakeup-parent, Waits, wakeup-Waits, Waits-wakeup}

module _ (chan_of : ℕ → ℕ) (initproc : ℕ) where
  reparent_slot-parent :
      (me : Option ℕ) (p pp i : ℕ) (t : Table)
      → (reparent_slot chan_of initproc me p pp t i).parent
        ≡ (if pp == i && has_parent (t i) p then some initproc else (t i).parent)
  unfolding reparent_slot
  reparent_slot-parent me p pp i t = ground (
    arith,
    wakeup-parent me (chan_of initproc) i (update t pp (record (t pp) { parent = some initproc })),
  )

  reparent_from-parent :
      (me : Option ℕ) (p n pp i : ℕ) (t : Table)
      → p ≢ initproc
      → (reparent_from chan_of initproc me p n pp t i).parent ≡ (
          if (leb pp i && ltb i (pp + n)) && has_parent (t i) p
          then some initproc
          else (t i).parent)
  unfolding reparent_from
  reparent_from-parent me p zero pp i t h = ground arith
  reparent_from-parent me p (suc n) pp i t h = ground (
    arith,
    reparent_from-parent me p n (pp + 1) i (reparent_slot chan_of initproc me p pp t) h,
    reparent_slot-parent me p pp i t,
  )

  reparent-Waits :
      (me : Option ℕ) (p n pp i chan : ℕ) (t : Table)
      → Waits chan (t i)
      → Waits chan (reparent_from chan_of initproc me p n pp t i)
  unfolding reparent_from reparent_slot
  reparent-Waits me p zero pp i chan t w = w
  reparent-Waits me p (suc n) pp i chan t w =
      let given = update t pp (record (t pp) { parent = some initproc }) in
      let slot = reparent_slot chan_of initproc me p pp t in
      let woken : Waits chan (wakeup me (chan_of initproc) given i) =
        wakeup-Waits me (chan_of initproc) chan i given (ground arith) in
      let first : Waits chan (slot i) = ground arith in
      reparent-Waits me p n (pp + 1) i chan slot first

  reparent-parent :
      (me : Option ℕ) (p i : ℕ) (t : Table)
      → p ≢ initproc
      → i < nproc
      → (reparent chan_of initproc me p t i).parent
        ≡ (if has_parent (t i) p then some initproc else (t i).parent)
  unfolding reparent
  reparent-parent me p i t h b = ground (arith, reparent_from-parent me p nproc 0 i t h)

  -- For every slot of the table: an exit of a process other than init makes it a zombie with its
  -- status, gives each of its children to init, and leaves every other process its parent:
  -- afterwards no process has it as its parent.
  pub exit_process-family :
      (p i : ℕ) (status : ℤ) (t : Table)
      → p ≢ initproc
      → i < nproc
      → let t' = exit_process chan_of initproc p status t in
        ((t' p).state ≡ zombie)
        × ((t' p).xstate ≡ status)
        × ((t' i).parent ≡ (if has_parent (t i) p then some initproc else (t i).parent))
        × (has_parent (t' i) p ≡ false)
  unfolding exit_process
  exit_process-family p i status t h b =
      let handed = reparent chan_of initproc (some p) p t in
      ground (
        arith,
        reparent-parent (some p) p i t h b,
        wakeup-parent (some p) (parent_chan chan_of (handed p).parent) i handed,
      )

  -- The parent of a process other than init that exits, both in the table and not the same, is
  -- runnable afterwards if it sleeps in `kwait`.
  pub exit_process-wakes :
      (p q : ℕ) (status : ℤ) (t : Table)
      → p ≢ initproc
      → p < nproc
      → q < nproc
      → q ≢ p
      → (t p).parent ≡ some q
      → (t q).state ≡ sleeping
      → (t q).chan ≡ chan_of q
      → (exit_process chan_of initproc p status t q).state ≡ runnable
  unfolding exit_process reparent
  exit_process-wakes p q status t h bp bq ne e s c =
      let handed = reparent chan_of initproc (some p) p t in
      let same : (handed p).parent ≡ some q = ground (arith, reparent-parent (some p) p p t h bp) in
      let waits : Waits (chan_of q) (handed q) =
        reparent-Waits (some p) p nproc 0 q (chan_of q) t (inl (s, c)) in
      rw same (ground (arith, Waits-wakeup p (chan_of q) q handed bq ne waits))
