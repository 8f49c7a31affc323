-- ===== src/Inode/Write.antt =====
-- kernel/fs.c: bytes that `writei` stores in one block of a file.
use gem_os_extension.Base.{
  ℕ, ◌+◌, ◌-◌, ◌/◌, ◌%◌, ◌<◌, ◌≤◌, ◌≡◌, ◌≢◌, inl, inr, sym, ap, ◌∙◌, true, false, Bool-cases, ◌&&◌,
  ltb, leb, ◌==◌, if◌then◌else◌, if-false, update, update_self, update_other, arith,
}
use gem_os_extension.Fs.{Block, bsize}
use gem_os_extension.Inode.{ndirect, nindirect, word_at}
use gem_os_extension.Inode.Mapping.{lookup}
use gem_os_extension.Inode.Read.{byte_of, filled}
use gem_os_extension.Inode.Writing.{patched}

abbrev pub maxfile : ℕ
maxfile = ndirect + nindirect

-- The blocks of a file have places of their own, and none is its indirect block.
pub record IsPlaced (addrs : ℕ → ℕ) (cache : ℕ → Block) : Type 0 where
  pub apart :
      (i j : ℕ)
      → i < maxfile
      → j < maxfile
      → lookup addrs cache i ≢ 0
      → i ≢ j
      → lookup addrs cache i ≢ lookup addrs cache j
  pub indirect :
      (i : ℕ) → i < maxfile → lookup addrs cache i ≢ 0 → lookup addrs cache i ≢ addrs ndirect

-- A store to another block than the indirect one keeps every place.
pub lookup-other :
    (addrs : ℕ → ℕ) (cache : ℕ → Block) (b j : ℕ) (bytes : Block)
    → b ≢ addrs ndirect
    → lookup addrs (update cache b bytes) j ≡ lookup addrs cache j
lookup-other addrs cache b j bytes other =
    ap
      (λ x.
        if ltb j ndirect
        then addrs j
        else if addrs ndirect == 0
        then 0
        else word_at x (j - ndirect))
      (update_other cache b bytes (addrs ndirect) other)

-- One block, with m bytes stored in it.
module _ (addrs : ℕ → ℕ) (cache : ℕ → Block) (mem : ℕ → ℕ) (src off m : ℕ) where
  abbrev pub place : ℕ
  place = lookup addrs cache (off / bsize)

  abbrev pub after : ℕ → Block
  after = update cache place (patched (cache place) (off % bsize) mem src m)

  pub after-lookup :
      (j : ℕ)
      → IsPlaced addrs cache
      → off / bsize < maxfile
      → place ≢ 0
      → lookup addrs after j ≡ lookup addrs cache j
  after-lookup j h low given =
      lookup-other addrs cache place j (patched (cache place) (off % bsize) mem src m)
        (h.indirect (off / bsize) low given)

  pub after-IsPlaced :
      IsPlaced addrs cache → off / bsize < maxfile → place ≢ 0 → IsPlaced addrs after
  after-IsPlaced h low given = record {
    apart = λ i j low_i low_j there other e.
        let at_i = after-lookup i h low given in
        h.apart i j low_i low_j (λ z. there (at_i ∙ z)) other
          (sym at_i ∙ e ∙ after-lookup j h low given);
    indirect = λ i low_i there e.
        let at_i = after-lookup i h low given in
        h.indirect i low_i (λ z. there (at_i ∙ z)) (sym at_i ∙ e);
  }

  pub byte_of-after :
      (x : ℕ)
      → IsPlaced addrs cache
      → off / bsize < maxfile
      → x / bsize < maxfile
      → place ≢ 0
      → m ≤ bsize - off % bsize
      → byte_of addrs after x ≡ filled (byte_of addrs cache) off mem src m x
  byte_of-after x h low low_x given short =
      let moved : byte_of addrs after x ≡ after (lookup addrs cache (x / bsize)) (x % bsize) =
        ap (λ b. after b (x % bsize)) (after-lookup (x / bsize) h low given) in
      elim (Bool-cases (x / bsize == off / bsize)) [
        | inr other ↦
            let away : place ≢ lookup addrs cache (x / bsize) =
              h.apart (off / bsize) (x / bsize) low low_x given (ground (arith, other)) in
            let outside : leb off x && ltb x (off + m) ≡ false = ground (arith, other, short) in
            moved
            ∙ ap (λ b. b (x % bsize))
                (update_other cache place (patched (cache place) (off % bsize) mem src m)
                  (lookup addrs cache (x / bsize)) away)
            ∙ sym (
                if-false (leb off x && ltb x (off + m)) (mem (src + (x - off)))
                  (byte_of addrs cache x) outside)
        | inl here ↦
            let same : x / bsize ≡ off / bsize = ground (arith, here) in
            let stored =
              moved
              ∙ ap (λ b. after (lookup addrs cache b) (x % bsize)) same
              ∙ ap (λ b. b (x % bsize))
                  (update_self cache place (patched (cache place) (off % bsize) mem src m)) in
            elim (Bool-cases (leb off x && ltb x (off + m))) [
              | inl inside ↦
                  let within : leb (off % bsize) (x % bsize) && ltb (x % bsize) (off % bsize + m)
                      ≡ true =
                    ground (arith, same, inside) in
                  let offset : x % bsize - off % bsize ≡ x - off = ground (arith, same, inside) in
                  stored ∙ rw (within, inside) (ap (λ d. mem (src + d)) offset)
              | inr outside ↦
                  let without : leb (off % bsize) (x % bsize) && ltb (x % bsize) (off % bsize + m)
                      ≡ false =
                    ground (arith, same, outside) in
                  stored
                  ∙ rw (without, outside)
                      (ap (λ b. cache (lookup addrs cache b) (x % bsize)) (sym same))
            ]
      ]
