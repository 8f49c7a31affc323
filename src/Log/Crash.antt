-- ===== src/Log/Crash.antt =====
-- kernel/log.c: a transaction is atomic, whenever the power fails.
use gem_os_extension.Base.{
  ℕ, ◌+◌, ◌<◌, ◌≤◌, ◌≡◌, ◌⊎◌, refl, sym, ap, ◌∙◌, inl, inr, false, Bool-cases, List, [], ◌∷◌, arith,
  ltb, leb, if◌then◌else◌,
}
use gem_os_extension.Log.{
  Log, LogHeader, HeaderFormat, install_trans, write_log, clear_n, write_head, commit, initlog,
}
use gem_os_extension.Log.Recovery.{
  Outside, holds, Wrote, write_from-Wrote, Installed, install_from-Installed,
}
use gem_os_extension.Log.Commit.{
  Settled, Pending, after, Installed-Placed, cleared, initlog-Pending, initlog-Settled, IsLog,
  written, write_head-lost, write_head-cache, write_head-same,
}

module _ {B : Type 0} (f : HeaderFormat B) where
  -- What a commit leaves on the disk: nothing of the transaction, if the power fails before the
  -- header is written, and else the whole of it, in the log or in place.
  abbrev Committed : Log B → (ℕ → B) → Type 0
  Committed l d =
      if leb l.power l.lh.n
      then Settled f l.start l.disk d
      else Pending f l.start l.lh l.cache l.disk d
      ⊎ Settled f l.start (after f l.lh l.cache l.disk) d

  -- The install loop behind the written header.
  install_after :
      (l s : Log B)
      → IsLog f l
      → Wrote l.lh.n 0 l s
      → let s2 = write_head f s in Installed l.cache s2.lh.n 0 s2 (install_trans s2)
  unfolding install_trans
  install_after l s w r =
      let s2 = write_head f s in
      let (at_start, lh_same, power_same) = write_head-same f s in
      let at : s2.start ≡ l.start = at_start ∙ r.start in
      let lh : s2.lh ≡ l.lh = lh_same ∙ r.lh in
      let count : s2.lh.n ≡ l.lh.n = ap (λ (h : LogHeader). h.n) lh in
      let block : (i : ℕ) → s2.lh.block i ≡ l.lh.block i =
        λ i. ap (λ (h : LogHeader). h.block i) lh in
      install_from-Installed l.cache s2.lh.n 0 s2 (omega (arith, w.fits, count))
        (λ i b. ground (arith, at, block i, w.apart i (omega (arith, b, count))))
        (λ i b.
          ap (λ a. s2.cache (a + i + 1)) at
          ∙ write_head-cache f s (l.start + i + 1) l.start r.start (omega arith)
          ∙ r.copied i (omega arith) (omega (arith, b, count))
          ∙ ap l.cache (sym (block i)))

  -- From the written header on.
  commit_end :
      (l s : Log B)
      → IsLog f l
      → Wrote l.lh.n 0 l s
      → l.lh.n < l.power
      → let s2 = write_head f s in
        let d = (write_head f (clear_n (install_trans s2))).disk in
        Pending f l.start l.lh l.cache l.disk d ⊎ Settled f l.start (after f l.lh l.cache l.disk) d
  commit_end l s w r enough =
      let s2 = write_head f s in
      let (at_start, lh_same, power_same) = write_head-same f s in
      let lh : s2.lh ≡ l.lh = lh_same ∙ r.lh in
      let placed =
        Installed-Placed f l.start l.lh l.cache l.disk s2 (install_trans s2) (at_start ∙ r.start)
          w.fits w.apart (written f l s w r enough) (ap (λ (h : LogHeader). h.n) lh)
          (λ i b. ap (λ (h : LogHeader). h.block i) lh) (install_after l s w r) in
      let c = cleared f l.start l.lh l.cache l.disk s2.power (install_trans s2) placed in
      elim (Bool-cases (leb s2.power l.lh.n)) [ inl e ↦ inl (rw e at c) | inr e ↦ inr (rw e at c) ]

  -- Without power for the header nothing comes of the commit.
  commit_lost :
      (l s : Log B)
      → IsLog f l
      → Wrote l.lh.n 0 l s
      → l.power ≤ l.lh.n
      → Settled f l.start l.disk (write_head f (clear_n (install_trans (write_head f s)))).disk
  commit_lost l s w r dead =
      let s2 = write_head f s in
      let (at_start, lh_same, power_same) = write_head-same f s in
      let i = install_after l s w r in
      let out : s.power ≡ 0 = omega (arith, r.power, dead) in
      let out2 : s2.power ≡ 0 = omega (arith, power_same, out) in
      let out3 : (install_trans s2).power ≡ 0 = omega (arith, i.power, out2) in
      let same : (b : ℕ)
          → (b ≤ l.start) ⊎ (l.start + 30 < b)
          → (write_head f (clear_n (install_trans s2))).disk b ≡ l.disk b =
        λ b o.
          ap (λ d. d b) (write_head-lost f (clear_n (install_trans s2)) out3)
          ∙ i.lost b out2
          ∙ ap (λ d. d b) (write_head-lost f s out)
          ∙ r.frame b (ground (arith, o)) in
      record {
        empty = ap (λ b. (f.as_header b).n) (same l.start (inl (omega arith))) ∙ w.empty;
        rest = λ b o. same b (ground (arith, o));
      }

  commit-Committed : (l : Log B) → IsLog f l → Committed l (commit f l).disk
  unfolding commit write_log holds
  commit-Committed l w = elim (Bool-cases (ltb 0 l.lh.n)) [
    | inl more ↦
        let r =
          write_from-Wrote l.lh.n 0 l (omega (arith, w.fits))
            (λ i b. w.apart i (omega (arith, b))) in
        let s = write_log l in
        elim (Bool-cases (leb l.power l.lh.n)) [
          | inl dead ↦ rw (more, dead) (commit_lost l s w r (ground (arith, dead)))
          | inr alive ↦ rw (more, alive) (commit_end l s w r (ground (arith, alive)))
        ]
    | inr nothing ↦
        let zero_ : l.lh.n ≡ 0 = ground (arith, nothing) in
        let settled : Settled f l.start l.disk l.disk = record {
          empty = w.empty;
          rest = λ b o. refl;
        } in
        elim (Bool-cases (leb l.power l.lh.n)) [
          | inl dead ↦ rw (nothing, dead) settled
          | inr alive ↦
              rw (nothing, alive)
                (inr (record {
                  empty = w.empty;
                  rest = λ b o.
                      sym (ap (λ k. if holds l.lh.block b k 0 then l.cache b else l.disk b) zero_);
                }))
        ]
  ]

  -- The machine starts again and again, each time with power for so many writes.
  unfoldable pub restarts : ℕ → List ℕ → Log B → Log B
  restarts start [] l = l
  restarts start (p ∷ ps) l = restarts start ps (initlog f start (record l { power = p }))

  -- Starts keep what a commit has left.
  restarts-Settled :
      (start : ℕ) (target : ℕ → B) (ps : List ℕ) (l : Log B)
      → Settled f start target l.disk
      → Settled f start target (restarts start ps l).disk
  unfolding restarts
  restarts-Settled start target [] l t = t
  restarts-Settled start target (p ∷ ps) l t =
      restarts-Settled start target ps (initlog f start (record l { power = p }))
        (initlog-Settled f start target (record l { power = p }) t)

  restarts-Pending :
      (start : ℕ) (h : LogHeader) (c old : ℕ → B) (ps : List ℕ) (l : Log B)
      → h.n ≤ 30
      → ((i : ℕ) → i < h.n → Outside start (h.block i))
      → Pending f start h c old l.disk
      → let d = (restarts start ps l).disk in
        Pending f start h c old d ⊎ Settled f start (after f h c old) d
  unfolding restarts
  restarts-Pending start h c old [] l fits out t = inl t
  restarts-Pending start h c old (p ∷ ps) l fits out t =
      let l' = initlog f start (record l { power = p }) in
      let r = initlog-Pending f start h c old (record l { power = p }) fits out t in
      elim (Bool-cases (leb p h.n)) [
        | inl e ↦ restarts-Pending start h c old ps l' fits out (rw e at r)
        | inr e ↦ inr (restarts-Settled start (after f h c old) ps l' (rw e at r))
      ]

  -- A last start, with power for all of its writes.
  last_start :
      (start q : ℕ) (h : LogHeader) (c old : ℕ → B) (l : Log B)
      → h.n ≤ 30
      → 30 < q
      → ((i : ℕ) → i < h.n → Outside start (h.block i))
      → Pending f start h c old l.disk ⊎ Settled f start (after f h c old) l.disk
      → Settled f start (after f h c old) (initlog f start (record l { power = q })).disk
  last_start start q h c old l fits enough out (inr t) =
      initlog-Settled f start (after f h c old) (record l { power = q }) t
  last_start start q h c old l fits enough out (inl t) =
      let more : leb q h.n ≡ false = ground arith in
      rw more at (initlog-Pending f start h c old (record l { power = q }) fits out t)

  -- A transaction is atomic. The power may fail after any write of `commit`, and again after any
  -- write of each of the starts of the machine that follow; once a start has had power for 31 writes,
  -- every block outside the log is as it was before the commit, if the power lasted for no more
  -- writes than the transaction has blocks, and else each block of the transaction has its new
  -- contents and each other block is as it was. Before the commit the log on disk is empty, and the
  -- transaction has at most 30 blocks, all outside the log.
  pub restarts-commit :
      (l : Log B) (ps : List ℕ) (q b : ℕ)
      → IsLog f l
      → 30 < q
      → Outside l.start b
      → let crashed = restarts l.start ps (commit f l) in
        (initlog f l.start (record crashed { power = q })).disk b ≡ (
          if leb l.power l.lh.n
          then l.disk b
          else if holds l.lh.block b l.lh.n 0
          then l.cache b
          else l.disk b)
  restarts-commit l ps q b w enough o =
      let c = commit-Committed l w in
      let crashed = restarts l.start ps (commit f l) in
      elim (Bool-cases (leb l.power l.lh.n)) [
        | inl e ↦
            let t : Settled f l.start l.disk (commit f l).disk = rw e at c in
            let t' = restarts-Settled l.start l.disk ps (commit f l) t in
            rw e ((initlog-Settled f l.start l.disk (record crashed { power = q }) t').rest b o)
        | inr e ↦
            let t : Pending f l.start l.lh l.cache l.disk (commit f l).disk
                ⊎ Settled f l.start (after f l.lh l.cache l.disk) (commit f l).disk =
              rw e at c in
            let t' : Pending f l.start l.lh l.cache l.disk crashed.disk
                ⊎ Settled f l.start (after f l.lh l.cache l.disk) crashed.disk =
              elim t [
                | inl p ↦
                    restarts-Pending l.start l.lh l.cache l.disk ps (commit f l) w.fits w.apart p
                | inr s ↦
                    inr (restarts-Settled l.start (after f l.lh l.cache l.disk) ps (commit f l) s)
              ] in
            rw e
              ((last_start l.start q l.lh l.cache l.disk crashed w.fits enough w.apart t').rest b o)
      ]
