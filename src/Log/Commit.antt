-- ===== src/Log/Commit.antt =====
-- kernel/log.c: `commit` and `recover_from_log`, with a failure of the power at any write.
use gem_os_extension.Base.{
  ℕ, ◌+◌, ◌-◌, ◌<◌, ◌≤◌, ◌≡◌, ◌≢◌, refl, sym, ap, ◌∙◌, subst, inl, inr, false, Bool-cases, arith,
  leb, if◌then◌else◌,
}
use gem_os_extension.Log.{
  Log, LogHeader, HeaderFormat, bwrite, install_trans, clear_n, read_head, write_head,
  recover_from_log, initlog,
}
use gem_os_extension.Log.Recovery.{
  Outside, holds, Wrote, Installed, install_from-Installed, holds_cong, holds-Outside,
}

module _ {B : Type 0} (f : HeaderFormat B) where
  -- A disk with an empty log, which holds `target` beside it.
  pub record Settled (start : ℕ) (target d : ℕ → B) : Type 0 where
    pub empty : (f.as_header (d start)).n ≡ 0
    pub rest : (b : ℕ) → Outside start b → d b ≡ target b

  -- A disk whose log holds the entries of `h` with the contents `c`, some of which may be in their
  -- places too; all else is as in `old`.
  pub record Pending (start : ℕ) (h : LogHeader) (c old d : ℕ → B) : Type 0 where
    pub count : (f.as_header (d start)).n ≡ h.n
    pub blocks : (i : ℕ) → i < h.n → (f.as_header (d start)).block i ≡ h.block i
    pub copies : (i : ℕ) → i < h.n → d (start + i + 1) ≡ c (h.block i)
    pub rest : (b : ℕ) → Outside start b → holds h.block b h.n 0 ≡ false → d b ≡ old b

  -- What the disk is to hold after the transaction of `h`.
  abbrev pub after : LogHeader → (ℕ → B) → (ℕ → B) → ℕ → B
  after h c old b = if holds h.block b h.n 0 then c b else old b

  -- The write of the header: lost without power, and it touches no other block.
  pub write_head-lost : (s : Log B) → s.power ≡ 0 → (write_head f s).disk ≡ s.disk
  unfolding write_head bwrite
  write_head-lost s e = ground (arith, e)

  pub write_head-put :
      (s : Log B) (start : ℕ)
      → s.start ≡ start
      → s.power ≢ 0
      → s.lh.n ≤ 30
      → let h = f.as_header ((write_head f s).disk start) in
        (h.n ≡ s.lh.n) × ((i : ℕ) → i < s.lh.n → h.block i ≡ s.lh.block i)
  unfolding write_head bwrite
  write_head-put s start e nz fits =
      let old = s.cache s.start in
      let same : (write_head f s).disk start ≡ f.put_header s.lh old = ground (arith, e, nz) in
      (
        ap (λ b. (f.as_header b).n) same ∙ f.put_n s.lh old fits,
        λ i b. ap (λ x. (f.as_header x).block i) same ∙ f.put_block s.lh old i fits b,
      )

  pub write_head-rest :
      (s : Log B) (b start : ℕ) → s.start ≡ start → b ≢ start → (write_head f s).disk b ≡ s.disk b
  unfolding write_head bwrite
  write_head-rest s b start e ne = ground (arith, e, ne)

  -- What the install loop leaves of a pending transaction: still pending, and in place if there was
  -- power for all of it.
  pub record Placed (start : ℕ) (h : LogHeader) (c old : ℕ → B) (power : ℕ) (s : Log B)
      : Type 0 where
    pub start_same : s.start ≡ start
    pub power_left : s.power ≡ power - h.n
    pub pending : Pending start h c old s.disk
    pub placed : h.n ≤ power → (b : ℕ) → Outside start b → s.disk b ≡ after h c old b

  pub Installed-Placed :
      (start : ℕ) (h : LogHeader) (c old : ℕ → B) (l s : Log B)
      → l.start ≡ start
      → h.n ≤ 30
      → ((i : ℕ) → i < h.n → Outside start (h.block i))
      → Pending start h c old l.disk
      → l.lh.n ≡ h.n
      → ((i : ℕ) → i < h.n → l.lh.block i ≡ h.block i)
      → Installed c l.lh.n 0 l s
      → Placed start h c old l.power s
  Installed-Placed start h c old l s at_start fits out p count blocks r =
      let same : (b : ℕ) → holds l.lh.block b l.lh.n 0 ≡ holds h.block b h.n 0 = λ b.
        holds_cong l.lh.block h.block b l.lh.n 0 (λ i q. blocks i (omega (arith, q, count)))
        ∙ ap (λ k. holds h.block b k 0) count in
      let own : (b : ℕ) → start ≤ b → b ≤ start + 30 → s.disk b ≡ l.disk b = λ b low high.
        r.frame b (
          same b
          ∙ holds-Outside h.block start b h.n 0 (λ i q. out i (omega (arith, q))) low high) in
      record {
        start_same = r.start ∙ at_start;
        power_left = omega (arith, r.power, count);
        pending = record {
          count = ap (λ x. (f.as_header x).n) (own start (omega arith) (omega arith)) ∙ p.count;
          blocks = λ i b.
              ap (λ x. (f.as_header x).block i) (own start (omega arith) (omega arith))
              ∙ p.blocks i b;
          copies = λ i b. own (start + i + 1) (omega arith) (omega (arith, fits)) ∙ p.copies i b;
          rest = λ b o e. r.frame b (same b ∙ e) ∙ p.rest b o e;
        };
        placed = λ enough b o. elim (Bool-cases (holds h.block b h.n 0)) [
          | inl e ↦ rw e (r.installed b (omega (arith, enough, count)) (same b ∙ e))
          | inr e ↦ rw e (r.frame b (same b ∙ e) ∙ p.rest b o e)
        ];
      }

  -- The log is emptied after it.
  pub cleared :
      (start : ℕ) (h : LogHeader) (c old : ℕ → B) (power : ℕ) (s : Log B)
      → Placed start h c old power s
      → let d = (write_head f (clear_n s)).disk in
        if leb power h.n then Pending start h c old d else Settled start (after h c old) d
  cleared start h c old power s r = elim (Bool-cases (leb power h.n)) [
    | inl dead ↦
        let none_left : s.power ≡ 0 = ground (arith, r.power_left, dead) in
        rw (dead, write_head-lost (clear_n s) none_left) r.pending
    | inr alive ↦
        let some_left : s.power ≢ 0 = ground (arith, r.power_left, alive) in
        let enough : h.n ≤ power = ground (arith, alive) in
        rw alive (record {
          empty = (write_head-put (clear_n s) start r.start_same some_left (omega arith)).0;
          rest = λ b o.
              write_head-rest (clear_n s) b start r.start_same (ground (arith, o))
              ∙ r.placed enough b o;
        })
  ]

  -- A start of the machine with a pending transaction puts it in place, or leaves it pending if the
  -- power fails before the header is cleared.
  pub initlog-Pending :
      (start : ℕ) (h : LogHeader) (c old : ℕ → B) (l : Log B)
      → h.n ≤ 30
      → ((i : ℕ) → i < h.n → Outside start (h.block i))
      → Pending start h c old l.disk
      → let d = (initlog f start l).disk in
        if leb l.power h.n then Pending start h c old d else Settled start (after h c old) d
  unfolding initlog recover_from_log read_head install_trans
  initlog-Pending start h c old l fits out p =
      let lh = f.as_header (l.disk start) in
      let l1 = record l { start = start; cache = l.disk; lh = lh } in
      let below : (i : ℕ) → i < 0 + lh.n → i < h.n = λ i b. omega (arith, p.count) in
      let r =
        install_from-Installed c lh.n 0 l1 (omega (arith, p.count))
          (λ i b. subst (Outside start) (sym (p.blocks i (below i b))) (out i (below i b)))
          (λ i b. p.copies i (below i b) ∙ ap c (sym (p.blocks i (below i b)))) in
      cleared start h c old l.power (install_trans l1)
        (Installed-Placed start h c old l1 (install_trans l1) refl fits out p p.count p.blocks r)

  -- A disk with an empty log stays so.
  pub initlog-Settled :
      (start : ℕ) (target : ℕ → B) (l : Log B)
      → Settled start target l.disk
      → Settled start target (initlog f start l).disk
  unfolding holds
  initlog-Settled start target l t =
      let h : LogHeader = record { n = 0; block = λ i. 0 } in
      let p : Pending start h target target l.disk = record {
        count = t.empty;
        blocks = λ i b. absurd (omega arith);
        copies = λ i b. absurd (omega arith);
        rest = λ b o e. t.rest b o;
      } in
      let r =
        initlog-Pending start h target target l (omega arith) (λ i b. absurd (omega arith)) p in
      elim (Bool-cases (leb l.power 0)) [
        | inl e ↦
            let q : Pending start h target target (initlog f start l).disk = rw e at r in
            record { empty = q.count; rest = λ b o. q.rest b o refl }
        | inr e ↦
            let q : Settled start (after h target target) (initlog f start l).disk = rw e at r in
            record { empty = q.empty; rest = λ b o. q.rest b o }
      ]

  -- The state of the log when no transaction is being committed.
  pub record IsLog (l : Log B) : Type 0 where
    pub fits : l.lh.n ≤ 30
    pub apart : (i : ℕ) → i < l.lh.n → Outside l.start (l.lh.block i)
    pub empty : (f.as_header (l.disk l.start)).n ≡ 0

  pub write_head-cache :
      (s : Log B) (b start : ℕ) → s.start ≡ start → b ≢ start → (write_head f s).cache b ≡ s.cache b
  unfolding write_head bwrite
  write_head-cache s b start e ne = ground (arith, e, ne)

  pub write_head-same :
      (s : Log B)
      → let s' = write_head f s in (s'.start ≡ s.start) × (s'.lh ≡ s.lh) × (s'.power ≡ s.power - 1)
  unfolding write_head bwrite
  write_head-same s = (refl, refl, refl)

  -- With the header written, the transaction is pending.
  pub written :
      (l s : Log B)
      → IsLog l
      → Wrote l.lh.n 0 l s
      → l.lh.n < l.power
      → Pending l.start l.lh l.cache l.disk (write_head f s).disk
  written l s w r enough =
      let at_start : s.start ≡ l.start = r.start in
      let (count, blocks) =
        write_head-put s l.start at_start (omega (arith, r.power, enough))
          (ground (arith, r.lh, w.fits)) in
      let others : (b : ℕ) → b ≢ l.start → (write_head f s).disk b ≡ s.disk b =
        λ b ne. write_head-rest s b l.start at_start ne in
      record {
        count = count ∙ ap (λ (h : LogHeader). h.n) r.lh;
        blocks = λ i b.
            blocks i (omega (arith, b, ap (λ (h : LogHeader). h.n) r.lh))
            ∙ ap (λ (h : LogHeader). h.block i) r.lh;
        copies = λ i b.
            others (l.start + i + 1) (omega arith)
            ∙ r.on_disk i (omega (arith, enough)) (omega arith) (omega (arith, b));
        rest = λ b o e. others b (ground (arith, o)) ∙ r.frame b (ground (arith, o));
      }
