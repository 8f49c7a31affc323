-- ===== src/Log/Recovery.antt =====
-- kernel/log.c: the two loops that copy blocks, with a failure of the power at any write.
use gem_os_extension.Base.{
  ℕ, zero, suc, ◌+◌, ◌-◌, ◌<◌, ◌≤◌, ◌≡◌, ◌⊎◌, refl, ◌∙◌, subst, inl, inr, Bool, true, false, ◌||◌,
  Bool-cases, arith, ◌==◌,
}
use gem_os_extension.Log.{Log, bwrite, install_from, write_from}

-- A block that the log does not use for itself.
abbrev pub Outside : ℕ → ℕ → Type 0
Outside start b = (b < start) ⊎ (start + 30 < b)

-- Whether a block is among `m` entries of a header, from `tail` on.
unfoldable pub holds : (ℕ → ℕ) → ℕ → ℕ → ℕ → Bool
holds block b zero tail = false
holds block b (suc m) tail = block tail == b || holds block b m (tail + 1)

module _ {B : Type 0} where
  -- What a run of `write_log`'s loop leaves: the log's data blocks hold what the entries' blocks
  -- held, as far as the power lasts; all else on the disk is as it was.
  pub record Wrote (m tail : ℕ) (l l' : Log B) : Type 0 where
    pub start : l'.start ≡ l.start
    pub lh : l'.lh ≡ l.lh
    pub power : l'.power ≡ l.power - m
    pub frame : (b : ℕ) → (b ≤ l.start + tail) ⊎ (l.start + 30 < b) → l'.disk b ≡ l.disk b
    pub frame_cache : (b : ℕ) → (b ≤ l.start + tail) ⊎ (l.start + 30 < b) → l'.cache b ≡ l.cache b
    pub copied :
        (j : ℕ) → tail ≤ j → j < tail + m → l'.cache (l.start + j + 1) ≡ l.cache (l.lh.block j)
    pub on_disk :
        (j : ℕ)
        → m ≤ l.power
        → tail ≤ j
        → j < tail + m
        → l'.disk (l.start + j + 1) ≡ l.cache (l.lh.block j)

  pub write_from-Wrote :
      (m tail : ℕ) (l : Log B)
      → tail + m ≤ 30
      → ((i : ℕ) → i < tail + m → Outside l.start (l.lh.block i))
      → Wrote m tail l (write_from m tail l)
  unfolding write_from bwrite
  write_from-Wrote zero tail l fits out = record {
    start = refl;
    lh = refl;
    power = omega arith;
    frame = λ b h. refl;
    frame_cache = λ b h. refl;
    copied = λ j a b. absurd (omega arith);
    on_disk = λ j p a b. absurd (omega arith);
  }
  write_from-Wrote (suc m) tail l fits out =
      let v = l.cache (l.lh.block tail) in
      let l1 = bwrite (l.start + tail + 1) v l in
      let r = write_from-Wrote m (tail + 1) l1 (omega arith) (λ i b. out i (omega arith)) in
      let l' = write_from m (tail + 1) l1 in
      let first = r.frame_cache (l.start + tail + 1) (inl (omega arith)) in
      let first_disk = r.frame (l.start + tail + 1) (inl (omega arith)) in
      let same : (j : ℕ) → (j == tail) ≡ true → tail ≡ j = λ j e. ground (arith, e) in
      let kept : (j : ℕ) → j < tail + suc m → l1.cache (l.lh.block j) ≡ l.cache (l.lh.block j) =
        λ j b. ground (arith, out j b) in
      record {
        start = r.start;
        lh = r.lh;
        power = omega (arith, r.power);
        frame = λ b h. ground (arith, r.frame b);
        frame_cache = λ b h. ground (arith, r.frame_cache b);
        copied = λ j a b. elim (Bool-cases (j == tail)) [
          | inl e ↦
              subst (λ k. l'.cache (l.start + k + 1) ≡ l.cache (l.lh.block k)) (same j e)
                (first ∙ ground arith)
          | inr e ↦ r.copied j (ground (arith, e)) (omega arith) ∙ kept j b
        ];
        on_disk = λ j p a b. elim (Bool-cases (j == tail)) [
          | inl e ↦
              subst (λ k. l'.disk (l.start + k + 1) ≡ l.cache (l.lh.block k)) (same j e)
                (first_disk ∙ ground arith)
          | inr e ↦ r.on_disk j (omega arith) (ground (arith, e)) (omega arith) ∙ kept j b
        ];
      }

  -- What a run of `install_trans`' loop leaves, where the log's data blocks hold `c` of the entries'
  -- blocks: those hold `c` now, in the cache, and on the disk as far as the power lasts; all else is
  -- as it was.
  pub record Installed (c : ℕ → B) (m tail : ℕ) (l l' : Log B) : Type 0 where
    pub start : l'.start ≡ l.start
    pub lh : l'.lh ≡ l.lh
    pub power : l'.power ≡ l.power - m
    pub lost : (b : ℕ) → l.power ≡ 0 → l'.disk b ≡ l.disk b
    pub frame : (b : ℕ) → holds l.lh.block b m tail ≡ false → l'.disk b ≡ l.disk b
    pub frame_cache : (b : ℕ) → holds l.lh.block b m tail ≡ false → l'.cache b ≡ l.cache b
    pub installed : (b : ℕ) → m ≤ l.power → holds l.lh.block b m tail ≡ true → l'.disk b ≡ c b

  pub install_from-Installed :
      (c : ℕ → B) (m tail : ℕ) (l : Log B)
      → tail + m ≤ 30
      → ((i : ℕ) → i < tail + m → Outside l.start (l.lh.block i))
      → ((i : ℕ) → i < tail + m → l.cache (l.start + i + 1) ≡ c (l.lh.block i))
      → Installed c m tail l (install_from m tail l)
  unfolding install_from bwrite holds
  install_from-Installed c zero tail l fits out copies = record {
    start = refl;
    lh = refl;
    power = omega arith;
    lost = λ b p. refl;
    frame = λ b h. refl;
    frame_cache = λ b h. refl;
    installed = λ b p h. absurd (ground (arith, h));
  }
  install_from-Installed c (suc m) tail l fits out copies =
      let v = l.cache (l.start + tail + 1) in
      let l1 = bwrite (l.lh.block tail) v l in
      let r =
        install_from-Installed c m (tail + 1) l1 (omega arith) (λ i b. out i (omega arith))
          (λ i b. ground (arith, out tail, copies i)) in
      record {
        start = r.start;
        lh = r.lh;
        power = omega (arith, r.power);
        lost = λ b p. r.lost b (omega (arith, p)) ∙ ground (arith, p);
        frame = λ b h. ground (arith, r.frame b, h);
        frame_cache = λ b h. ground (arith, r.frame_cache b, h);
        installed = λ b p h. elim (Bool-cases (holds l.lh.block b m (tail + 1))) [
          | inl later ↦ r.installed b (omega arith) later
          | inr done_ ↦ ground (arith, r.frame b, h, done_, copies tail)
        ];
      }

pub holds_cong :
    (block block' : ℕ → ℕ) (b m tail : ℕ)
    → ((i : ℕ) → i < tail + m → block i ≡ block' i)
    → holds block b m tail ≡ holds block' b m tail
unfolding holds
holds_cong block block' b zero tail h = refl
holds_cong block block' b (suc m) tail h =
    ground (
      arith,
      h tail (omega arith),
      holds_cong block block' b m (tail + 1) (λ i l. h i (omega arith)),
    )

-- The log's own blocks are not among the entries.
pub holds-Outside :
    (block : ℕ → ℕ) (start b m tail : ℕ)
    → ((i : ℕ) → i < tail + m → Outside start (block i))
    → start ≤ b
    → b ≤ start + 30
    → holds block b m tail ≡ false
unfolding holds
holds-Outside block start b zero tail out low high = refl
holds-Outside block start b (suc m) tail out low high = ground (
  arith,
  out tail (omega arith),
  holds-Outside block start b m (tail + 1) (λ i l. out i (omega arith)) low high,
)
