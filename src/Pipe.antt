-- ===== src/Pipe.antt =====
-- kernel/pipe.c: the ring of 512 bytes with two counters that wrap at 2^32. The copies from and to
-- user memory are parameters: what `copyin` brings for the i-th byte, and whether `copyout` succeeds
-- for it. A call runs up to the point where it sleeps; the wakeups are those of Proc.
pub mod Ring
use gem_os_extension.Base.{
  ℕ, zero, suc, ◌+◌, ◌%◌, ◌^◌, Bool, true, false, not, ◌&&◌, ◌||◌, Option, none, some, List, [],
  ◌∷◌, ◌==◌, if◌then◌else◌, ℤ, pos, minus_one, update,
}

abbrev pub pipesize : ℕ
pipesize = 512

-- `struct pipe`, less the lock.
pub record Pipe : Type 0 where
  pub data_at : ℕ → ℕ
  pub nread : ℕ
  pub nwrite : ℕ
  pub readopen : Bool
  pub writeopen : Bool

-- The fields that `pipealloc` sets, of a page that holds anything.
unfoldable pub pipealloc : Pipe → Pipe
pipealloc p = record p { nread = 0; nwrite = 0; readopen = true; writeopen = true }

-- The pipe, and whether its page is freed.
unfoldable pub pipeclose : Bool → Pipe → Pipe × Bool
pipeclose writable p =
    let closed =
      if writable then record p { writeopen = false } else record p { readopen = false } in
    (closed, not closed.readopen && not closed.writeopen)

abbrev pub is_full : Pipe → Bool
is_full p = p.nwrite == (p.nread + pipesize) % 2 ^ 32

abbrev pub is_empty : Pipe → Bool
is_empty p = p.nread == p.nwrite

unfoldable pub put_byte : ℕ → Pipe → Pipe
put_byte ch p = record p {
  data_at = update p.data_at (p.nwrite % pipesize) ch;
  nwrite = (p.nwrite + 1) % 2 ^ 32;
}

-- What a call comes to: a return value, or a sleep after `i` bytes.
pub data WriteResult : Type 0 where
  wrote : ℤ → Pipe → WriteResult
  waits : ℕ → Pipe → WriteResult

-- The loop of `pipewrite`, with `n` bytes left, from the `i`-th on.
unfoldable pub write_from : (ℕ → Option ℕ) → Bool → ℕ → ℕ → Pipe → WriteResult
unfolding put_byte
write_from copyin killed zero i p = wrote (pos i) p
write_from copyin killed (suc n) i p =
    let full = is_full p in
    if not p.readopen || killed
    then wrote minus_one p
    else if full
    then waits i p
    else elim (copyin i) [
      | none ↦ wrote (pos i) p
      | some ch ↦ write_from copyin killed n (i + 1) (put_byte ch p)
    ]

unfoldable pub pipewrite : (ℕ → Option ℕ) → Bool → ℕ → Pipe → WriteResult
pipewrite copyin killed n = write_from copyin killed n 0

abbrev pub byte_at : Pipe → ℕ
byte_at p = p.data_at (p.nread % pipesize)

abbrev pub drop_byte : Pipe → Pipe
drop_byte p = record p { nread = (p.nread + 1) % 2 ^ 32 }

-- The return value of a read, the bytes that it has copied out, and the pipe.
pub record ReadResult : Type 0 where
  pub count : ℤ
  pub bytes : List ℕ
  pub pipe : Pipe

abbrev pub with_byte : ℕ → ReadResult → ReadResult
with_byte ch r = record r { bytes = ch ∷ r.bytes }

-- The second loop of `piperead`, with `n` bytes left, from the `i`-th on.
unfoldable pub read_from : (ℕ → Bool) → ℕ → ℕ → Pipe → ReadResult
read_from copyout zero i p = record { count = pos i; bytes = []; pipe = p }
read_from copyout (suc n) i p =
    let rest = with_byte (byte_at p) (read_from copyout n (i + 1) (drop_byte p)) in
    let empty = is_empty p in
    if empty
    then record { count = pos i; bytes = []; pipe = p }
    else if copyout i
    then rest
    else record { count = if i == 0 then minus_one else pos i; bytes = []; pipe = p }

-- `piperead`; `none` is a sleep.
unfoldable pub piperead : (ℕ → Bool) → Bool → ℕ → Pipe → Option ReadResult
piperead copyout killed n p =
    let empty = is_empty p in
    if empty && p.writeopen
    then (if killed then some (record { count = minus_one; bytes = []; pipe = p }) else none)
    else some (read_from copyout n 0 p)
