-- ===== src/Pipe/Ring.antt =====
-- kernel/pipe.c: the ring as a queue of bytes.
use mathlib.Core.List.{append-nil, append_assoc}
use gem_os_extension.Base.{
  ℕ, zero, suc, ◌+◌, ◌-◌, ◌%◌, ◌^◌, ◌<◌, ◌≤◌, ◌≡◌, ◌≢◌, ◌↔◌, refl, sym, subst, ap, ap₂, ◌∙◌, inl,
  inr, Bool, true, false, Bool-cases, some, List, [], ◌∷◌, ◌++◌, arith, length, length-append, leb,
  if◌then◌else◌, pos, update,
}
use gem_os_extension.Pipe.{
  Pipe, pipesize, is_full, is_empty, put_byte, WriteResult, write_from, pipewrite, wrote, waits,
  byte_at, drop_byte, ReadResult, read_from, piperead,
}

-- The bytes of the ring from the count `r` on.
abbrev pub Holds : (ℕ → ℕ) → ℕ → List ℕ → Type 0
Holds bytes r [] = Unit
Holds bytes r (x ∷ xs) = (bytes (r % 512) ≡ x) × Holds bytes ((r + 1) % 2 ^ 32) xs

-- The pipe holds the bytes `xs`, oldest first.
pub record IsPipe (p : Pipe) (xs : List ℕ) : Type 0 where
  pub room : length xs ≤ pipesize
  pub read_below : p.nread < 2 ^ 32
  pub distance : p.nwrite ≡ (p.nread + length xs) % 2 ^ 32
  pub holds : Holds p.data_at p.nread xs

-- The tests of the code for a full and for an empty ring are right, although the counters wrap.
pub is_full-IsPipe :
    (p : Pipe) (xs : List ℕ)
    → IsPipe p xs
    → ((is_full p ≡ true) ↔ (length xs ≡ pipesize)) × ((is_empty p ≡ true) ↔ (length xs ≡ 0))
is_full-IsPipe p xs h =
    let room = h.room in
    let below = h.read_below in
    let far = h.distance in
    (
      ((λ e. ground (arith, room, below, far)), (λ e. ground (arith, room, below, far))),
      ((λ e. ground (arith, room, below, far)), (λ e. ground (arith, room, below, far))),
    )

-- A write at the place behind the bytes leaves them, and adds the one written.
Holds-snoc :
    (bytes : ℕ → ℕ) (r ch : ℕ) (xs : List ℕ)
    → r < 2 ^ 32
    → length xs < 512
    → Holds bytes r xs
    → Holds (update bytes ((r + length xs) % 2 ^ 32 % 512) ch) r (xs ++ ch ∷ [])
Holds-snoc bytes r ch [] b l h = ground arith
Holds-snoc bytes r ch (x ∷ xs) b l h =
    let next = (r + 1) % 2 ^ 32 in
    let place = (r + suc (length xs)) % 2 ^ 32 % 512 in
    let same : (next + length xs) % 2 ^ 32 % 512 ≡ place = omega arith in
    let later = Holds-snoc bytes next ch xs (omega arith) (omega (arith, l)) h.1 in
    let other : place ≢ r % 512 = omega (arith, l) in
    (
      ground (arith, h.0, other),
      subst (λ a. Holds (update bytes a ch) next (xs ++ ch ∷ [])) same later,
    )

put_byte-IsPipe :
    (p : Pipe) (ch : ℕ) (xs : List ℕ)
    → IsPipe p xs
    → length xs < 512
    → IsPipe (put_byte ch p) (xs ++ ch ∷ [])
unfolding put_byte
put_byte-IsPipe p ch xs h l =
    let long = length-append xs (ch ∷ []) in
    record {
      room = omega (arith, long, l);
      read_below = h.read_below;
      distance = omega (arith, long, h.distance);
      holds =
          subst (λ w. Holds (update p.data_at (w % 512) ch) p.nread (xs ++ ch ∷ []))
            (sym h.distance) (Holds-snoc p.data_at p.nread ch xs h.read_below l h.holds);
    }

drop_byte-IsPipe :
    (p : Pipe) (x : ℕ) (xs : List ℕ) → IsPipe p (x ∷ xs) → (byte_at p ≡ x) × IsPipe (drop_byte p) xs
drop_byte-IsPipe p x xs h = (
  h.holds.0,
  record {
    room = omega (arith, h.room);
    read_below = omega arith;
    distance = omega (arith, h.distance, h.read_below);
    holds = h.holds.1;
  },
)

-- The bytes that a write takes from user memory, from the `i`-th on.
abbrev pub bytes_from : (ℕ → ℕ) → ℕ → ℕ → List ℕ
bytes_from source zero i = []
bytes_from source (suc n) i = source i ∷ bytes_from source n (i + 1)

length-bytes_from : (source : ℕ → ℕ) (n i : ℕ) → length (bytes_from source n i) ≡ n
length-bytes_from source zero i = refl
length-bytes_from source (suc n) i = omega (arith, length-bytes_from source n (i + 1))

-- A write whose bytes can all be copied, by a process that lives on.
abbrev writing : (ℕ → ℕ) → ℕ → ℕ → Pipe → WriteResult
writing source = write_from (λ j. some (source j)) false

writing-suc :
    (source : ℕ → ℕ) (n i : ℕ) (p : Pipe) (xs : List ℕ)
    → IsPipe p xs
    → p.readopen ≡ true
    → length xs < 512
    → writing source (suc n) i p ≡ writing source n (i + 1) (put_byte (source i) p)
unfolding write_from
writing-suc source n i p xs h open_ room =
    let (full, empty) = is_full-IsPipe p xs h in
    elim (Bool-cases (is_full p)) [
      | inl e ↦ absurd (omega (arith, full.0 e, room))
      | inr e ↦ ground (arith, e, open_)
    ]

-- The first `m` of the bytes of a write, as far as there is room, are appended.
write_some :
    (source : ℕ → ℕ) (m n i : ℕ) (p : Pipe) (xs : List ℕ)
    → IsPipe p xs
    → p.readopen ≡ true
    → length xs + m ≤ 512
    → (p' : Pipe) × (writing source (m + n) i p ≡ writing source n (i + m) p')
      × IsPipe p' (xs ++ bytes_from source m i)
      × (p'.readopen ≡ true)
unfolding put_byte
write_some source zero n i p xs h open_ room = (
  p,
  ap (λ k. writing source k i p) (omega arith) ∙ ap (λ j. writing source n j p) (omega arith),
  rw (append-nil xs) h,
  open_,
)
write_some source (suc m) n i p xs h open_ room =
    let long = length-append xs (source i ∷ []) in
    let less : length xs < 512 = omega (arith, room) in
    let one = put_byte-IsPipe p (source i) xs h less in
    let (p', e, h', o) =
      write_some source m n (i + 1) (put_byte (source i) p) (xs ++ source i ∷ []) one open_
        (omega (arith, room, long)) in
    (
      p',
      ap (λ k. writing source k i p) (omega arith)
          ∙ writing-suc source (m + n) i p xs h open_ less
          ∙ e
          ∙ ap (λ j. writing source n j p') (omega arith),
      rw append_assoc at h',
      o,
    )

writing-full :
    (source : ℕ → ℕ) (n i : ℕ) (p : Pipe) (xs : List ℕ)
    → IsPipe p xs
    → p.readopen ≡ true
    → length xs ≡ 512
    → 0 < n
    → writing source n i p ≡ waits i p
unfolding write_from
writing-full source zero i p xs h open_ room some_left = absurd (omega (arith, some_left))
writing-full source (suc n) i p xs h open_ room some_left =
    let full : is_full p ≡ true = (is_full-IsPipe p xs h).0.1 room in ground (arith, full, open_)

-- A write into a pipe whose read end is open, where user memory can be read and the process is not
-- killed: if there is room for all the bytes, it appends them in order and returns their number; if
-- not, it fills the ring with the first of them and sleeps.
pub pipewrite-IsPipe :
    (source : ℕ → ℕ) (n : ℕ) (p : Pipe) (xs : List ℕ)
    → IsPipe p xs
    → p.readopen ≡ true
    → (p' : Pipe) × (pipewrite (λ j. some (source j)) false n p
        ≡ (if leb (length xs + n) 512 then wrote (pos n) p' else waits (512 - length xs) p'))
      × IsPipe p'
          (xs ++ bytes_from source (if leb (length xs + n) 512 then n else 512 - length xs) 0)
unfolding pipewrite write_from
pipewrite-IsPipe source n p xs h open_ = elim (Bool-cases (leb (length xs + n) 512)) [
  | inl fits ↦
      let (p', e, h', o) = write_some source n 0 0 p xs h open_ (ground (arith, fits)) in
      rw fits (
        p',
        ap (λ k. writing source k 0 p) (omega arith) ∙ e ∙ ap (λ j. wrote (pos j) p') (omega arith),
        h',
      )
  | inr many ↦
      let m = 512 - length xs in
      let (p', e, h', o) = write_some source m (n - m) 0 p xs h open_ (omega (arith, h.room)) in
      let less : 512 < length xs + n = ground (arith, many) in
      let long = length-append xs (bytes_from source m 0) in
      let count = length-bytes_from source m 0 in
      let all : length (xs ++ bytes_from source m 0) ≡ 512 = omega (arith, long, count, h.room) in
      let stops =
        writing-full source (n - m) (0 + m) p' (xs ++ bytes_from source m 0) h' o all
          (omega (arith, less)) in
      rw many (
        p',
        ap (λ k. writing source k 0 p) (omega (arith, less))
            ∙ e
            ∙ stops
            ∙ ap (λ j. waits j p') (omega arith),
        h',
      )
]

-- The second loop of a read takes the oldest bytes, where user memory can be written.
reading :
    (n i : ℕ) (p : Pipe) (xs ys : List ℕ)
    → IsPipe p (xs ++ ys)
    → length xs ≡ n
    → let r = read_from (λ j. true) n i p in
      (r.count ≡ pos (i + n)) × (r.bytes ≡ xs) × IsPipe r.pipe ys
unfolding read_from
reading zero i p [] ys h e = (ap pos (omega arith), refl, h)
reading zero i p (x ∷ xs) ys h e = absurd (omega (arith, e))
reading (suc n) i p [] ys h e = absurd (omega (arith, e))
reading (suc n) i p (x ∷ xs) ys h e =
    let full = is_full-IsPipe p (x ∷ xs ++ ys) h in
    let (byte, h') = drop_byte-IsPipe p x (xs ++ ys) h in
    let (count, bytes, rest) = reading n (i + 1) (drop_byte p) xs ys h' (omega (arith, e)) in
    elim (Bool-cases (is_empty p)) [
      | inl z ↦ absurd (omega (arith, full.1.0 z))
      | inr z ↦ rw z (count ∙ ap pos (omega arith), ap₂ (λ a b. a ∷ b) byte bytes, rest)
    ]

-- A read of at least one byte, and of no more than the pipe holds, where user memory can be
-- written, returns their number, delivers the oldest bytes in order, and leaves the others.
pub piperead-IsPipe :
    (killed : Bool) (n : ℕ) (p : Pipe) (x : ℕ) (xs ys : List ℕ)
    → IsPipe p (x ∷ xs ++ ys)
    → length (x ∷ xs) ≡ n
    → (r : ReadResult) × (piperead (λ j. true) killed n p ≡ some r)
      × (r.count ≡ pos n)
      × (r.bytes ≡ x ∷ xs)
      × IsPipe r.pipe ys
unfolding piperead
piperead-IsPipe killed n p x xs ys h e =
    let full = is_full-IsPipe p (x ∷ xs ++ ys) h in
    let (count, bytes, rest) = reading n 0 p (x ∷ xs) ys h e in
    elim (Bool-cases (is_empty p)) [
      | inl z ↦ absurd (omega (arith, full.1.0 z))
      | inr z ↦ (
        read_from (λ j. true) n 0 p,
        ground (arith, z),
        count ∙ ap pos (omega arith),
        bytes,
        rest,
      )
    ]
