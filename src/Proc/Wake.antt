-- ===== src/Proc/Wake.antt =====
-- kernel/proc.c: searching the table, and `wakeup`.
use gem_os_extension.Base.{
  ℕ, zero, suc, ◌+◌, ◌<◌, ◌≤◌, ◌≡◌, ◌≢◌, refl, ◌⊎◌, inl, inr, Bool, true, false, Bool-cases, Option,
  none, some, arith, ◌==◌,
}
use gem_os_extension.Proc.{Proc, Table, nproc, find_slot, wakeup, runnable, sleeping, zombie, sleep}

-- The slot that a search returns passes the test, and no slot before it does.
pub record Found (test : ℕ → Proc → Bool) (t : Table) (n i slot : ℕ) : Type 0 where
  pub from : i ≤ slot
  pub below : slot < i + n
  pub passes : test slot (t slot) ≡ true
  pub earlier : (j : ℕ) → i ≤ j → j < slot → test j (t j) ≡ false

pub find_slot-some :
    (test : ℕ → Proc → Bool) (t : Table) (n i slot : ℕ)
    → find_slot test t n i ≡ some slot
    → Found test t n i slot
unfolding find_slot
find_slot-some test t zero i slot e = absurd (ground arith)
find_slot-some test t (suc n) i slot e = elim (Bool-cases (test i (t i))) [
  | inl hit ↦ record {
    from = ground arith;
    below = ground arith;
    passes = ground arith;
    earlier = λ j a b. absurd (ground arith);
  }
  | inr miss ↦
      let ih : Found test t n (i + 1) slot = find_slot-some test t n (i + 1) slot (ground arith) in
      record {
        from = ground (arith, ih.from);
        below = ground (arith, ih.below);
        passes = ih.passes;
        earlier = λ j a b. ground (arith, ih.earlier j);
      }
]

pub find_slot-none :
    (test : ℕ → Proc → Bool) (t : Table) (n i : ℕ)
    → find_slot test t n i ≡ none
    → (j : ℕ) → i ≤ j
    → j < i + n
    → test j (t j) ≡ false
unfolding find_slot
find_slot-none test t zero i e j a b = absurd (omega arith)
find_slot-none test t (suc n) i e j a b = elim (Bool-cases (test i (t i))) [
  | inl hit ↦ absurd (ground arith)
  | inr miss ↦
      let rest : find_slot test t n (i + 1) ≡ none = ground arith in
      let later : i + 1 ≤ j → test j (t j) ≡ false =
        λ c. find_slot-none test t n (i + 1) rest j c (omega arith) in
      elim (Bool-cases (j == i)) [ inl same ↦ ground arith | inr other ↦ later (ground arith) ]
]

-- Two searches whose tests agree on every slot find the same one.
pub find_slot-cong :
    (test test' : ℕ → Proc → Bool) (t t' : Table) (n i : ℕ)
    → ((j : ℕ) → test j (t j) ≡ test' j (t' j))
    → find_slot test t n i ≡ find_slot test' t' n i
unfolding find_slot
find_slot-cong test test' t t' zero i h = refl
find_slot-cong test test' t t' (suc n) i h =
    ground (arith, h i, find_slot-cong test test' t t' n (i + 1) h)

-- A process of the table that has gone to sleep on a channel is runnable after another process's
-- `wakeup` on that channel, and is as it was after a `wakeup` on another channel.
pub wakeup-sleep :
    (me i chan other : ℕ) (t : Table)
    → i < nproc
    → i ≢ me
    → other ≢ chan
    → ((wakeup (some me) chan (sleep i chan t) i).state ≡ runnable)
      × (wakeup (some me) other (sleep i chan t) i ≡ sleep i chan t i)
unfolding wakeup sleep
wakeup-sleep me i chan other t h n c = ground arith

-- `wakeup` changes no parent, and no state but that of a sleeping process.
pub wakeup-parent :
    (me : Option ℕ) (chan i : ℕ) (t : Table) → (wakeup me chan t i).parent ≡ (t i).parent
unfolding wakeup
wakeup-parent me chan i t = ground arith

pub wakeup-zombie :
    (me : Option ℕ) (chan i : ℕ) (t : Table) → (t i).state ≡ zombie → wakeup me chan t i ≡ t i
unfolding wakeup
wakeup-zombie me chan i t h = ground arith

-- `wakeup` leaves no process a zombie that was not one.
pub zombie-wakeup :
    (me : Option ℕ) (chan i : ℕ) (t : Table)
    → (wakeup me chan t i).state ≡ zombie
    → (t i).state ≡ zombie
unfolding wakeup
zombie-wakeup me chan i t h = ground arith

-- The process sleeps on the channel, or has been woken.
abbrev pub Waits : ℕ → Proc → Type 0
Waits chan p = ((p.state ≡ sleeping) × (p.chan ≡ chan)) ⊎ (p.state ≡ runnable)

pub wakeup-Waits :
    (me : Option ℕ) (c chan i : ℕ) (t : Table) → Waits chan (t i) → Waits chan (wakeup me c t i)
unfolding wakeup
wakeup-Waits me c chan i t w = ground arith

pub Waits-wakeup :
    (me chan i : ℕ) (t : Table)
    → i < nproc
    → i ≢ me
    → Waits chan (t i)
    → (wakeup (some me) chan t i).state ≡ runnable
unfolding wakeup
Waits-wakeup me chan i t h n w = ground arith
