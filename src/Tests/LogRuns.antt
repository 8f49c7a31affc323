-- ===== src/Tests/LogRuns.antt =====
-- A transaction of two blocks, and an operation with writes left.
use gem_os_extension.Base.{
  ℕ, ◌+◌, ◌<◌, ◌≡◌, ◌≢◌, inr, ◌⊎◌, done, refl, arith, true, false, [], ◌∷◌, ◌==◌, leb,
  if◌then◌else◌, panic, some, length,
}
use gem_os_extension.Log.{
  LogHeader, HeaderFormat, Log, logblocks, begin_op, log_write, commit, end_locked, end_commit,
  initlog,
}
use gem_os_extension.Log.Recovery.{holds}
use gem_os_extension.Log.Commit.{IsLog}
use gem_os_extension.Log.Crash.{restarts, restarts-commit}
use gem_os_extension.Log.Space.{
  idle, committed, Run, nothing, begins, ends, commits, finishes, Run-safe,
}

-- A block that keeps a header apart from a number.
abbrev pub Block : Type 0
Block = LogHeader × ℕ

abbrev pub format : HeaderFormat Block
format = record {
  as_header = λ b. b.0;
  put_header = λ h b. (h, b.1);
  put_n = λ h b fits. refl;
  put_block = λ h b i fits below. refl;
}

abbrev pub plain : ℕ → Block
plain v = (record { n = 0; block = λ i. 0 }, v)

-- The blocks 40 and 41 are in the log and changed in memory.
abbrev pub changed : Log Block
changed = record {
  start = 2;
  outstanding = 0;
  committing = true;
  lh = record { n = 2; block = λ i. i + 40 };
  cache = λ b. if b == 40 then plain 7 else if b == 41 then plain 8 else plain 1;
  disk = λ b. plain 1;
  power = 4;
}

changed-IsLog : IsLog format changed
changed-IsLog = record {
  fits = omega arith;
  apart = λ i below. inr (omega (arith, below));
  empty = refl;
}

-- The power fails in `commit` and in two starts; then the transaction is on the disk.
restarts-commit_example :
    let crashed = restarts format 2 (1 ∷ 2 ∷ []) (commit format changed) in
    (initlog format 2 (record crashed { power = 31 })).disk 40
    ≡ (if leb 4 2 then plain 1 else if holds (λ i. i + 40) 40 2 0 then plain 7 else plain 1)
restarts-commit_example =
    restarts-commit format changed (1 ∷ 2 ∷ []) 31 40 changed-IsLog (omega arith)
      (inr (omega arith))

abbrev pub quiet : Log Block
quiet = record {
  start = 2;
  outstanding = 0;
  committing = false;
  lh = record { n = 20; block = λ i. i + 40 };
  cache = λ b. plain 1;
  disk = λ b. plain 1;
  power = 100;
}

-- After a commit, of a log that holds nothing, another operation begins.
abbrev empty_log : Log Block
empty_log = record quiet { lh = record { n = 0; block = λ i. 0 } }

empty_begun : begin_op empty_log ≡ some (record empty_log { outstanding = 1 })
unfolding begin_op
empty_begun = refl

empty_ended :
    end_locked (record empty_log { outstanding = 1 })
    ≡ done (record empty_log { committing = true }, true)
unfolding end_locked
empty_ended = refl

nothing_to_commit :
    commit format (record empty_log { committing = true }) ≡ record empty_log { committing = true }
unfolding commit
nothing_to_commit = refl

one_ended :
    Run format empty_log (commit format (record empty_log { committing = true })) [] committed
one_ended =
    commits (record empty_log { committing = true }) []
      (ends (record empty_log { outstanding = 1 }) (record empty_log { committing = true }) [] []
        (10 ∷ []) [] idle 10 true
        (begins empty_log (record empty_log { outstanding = 1 }) [] idle nothing empty_begun) refl
        refl empty_ended)

again :
    begin_op (end_commit (commit format (record empty_log { committing = true })))
    ≡ some (record empty_log { outstanding = 1 })
unfolding begin_op commit
again = refl

Run-safe_example :
    (1 ≡ length {A = ℕ} (10 ∷ []))
    × (idle ≡ idle)
    × (false ≡ false)
    × (end_locked (record empty_log { outstanding = 1 }) ≢ panic)
    × ((◌≡◌ {A = ℕ} 10 0)
        ⊎ ((0 < logblocks)
            × (log_write 50 (plain 9) (record empty_log { outstanding = 1 }) ≢ panic)))
Run-safe_example =
    Run-safe format empty_log (record empty_log { outstanding = 1 }) [] [] idle 10 50 (plain 9) refl
      (omega arith) refl
      (begins (end_commit (commit format (record empty_log { committing = true })))
        (record empty_log { outstanding = 1 }) [] idle
        (finishes (commit format (record empty_log { committing = true })) [] one_ended) again)
