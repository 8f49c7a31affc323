-- ===== src/Tests/PipeRuns.antt =====
-- A pipe whose counters are about to wrap.
use gem_os_extension.Base.{
  ◌+◌, ◌≡◌, refl, true, false, some, [], ◌∷◌, arith, ◌==◌, if◌then◌else◌, pos,
}
use gem_os_extension.Pipe.{Pipe, pipewrite, wrote, ReadResult, piperead}
use gem_os_extension.Pipe.Ring.{IsPipe, pipewrite-IsPipe, piperead-IsPipe}

-- It holds the bytes 7 and 8, at the last place of the ring and at the first.
abbrev wrapping : Pipe
wrapping = record {
  data_at = λ i. if i == 511 then 7 else 8;
  nread = 4294967295;
  nwrite = 1;
  readopen = true;
  writeopen = true;
}

wrapping-IsPipe : IsPipe wrapping (7 ∷ 8 ∷ [])
wrapping-IsPipe = record {
  room = omega arith;
  read_below = omega arith;
  distance = refl;
  holds = (refl, (refl, tt));
}

pipewrite-IsPipe_example :
    (p' : Pipe) × (pipewrite (λ j. some (j + 1)) false 2 wrapping ≡ wrote (pos 2) p')
    × IsPipe p' (7 ∷ 8 ∷ 1 ∷ 2 ∷ [])
pipewrite-IsPipe_example =
    pipewrite-IsPipe (λ j. j + 1) 2 wrapping (7 ∷ 8 ∷ []) wrapping-IsPipe refl

piperead-IsPipe_example :
    (r : ReadResult) × (piperead (λ j. true) false 1 wrapping ≡ some r)
    × (r.count ≡ pos 1)
    × (r.bytes ≡ 7 ∷ [])
    × IsPipe r.pipe (8 ∷ [])
piperead-IsPipe_example = piperead-IsPipe false 1 wrapping 7 [] (8 ∷ []) wrapping-IsPipe refl
