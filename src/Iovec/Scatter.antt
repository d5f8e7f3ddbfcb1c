-- ===== src/Iovec/Scatter.antt =====
-- What the copies into the normal world's buffers write.
use trusted_gateway.Prelude.{
  ℕ, zero, suc, ◌+◌, ◌-◌, ◌≤◌, ◌<◌, ◌≡◌, ◌≢◌, ◌⊎◌, inl, inr, refl, ap, sym, ◌∙◌, List, [], ◌∷◌,
  ◌++◌, ok, panic, out_of_bounds, arith, length, drop, ltb, leb, get_or, drop_all, drop-get_or,
  ◌&&◌, if◌then◌else◌,
}
use mathlib.Core.Path.{ap₂}
use trusted_gateway.Vqueue.State.{Iov, u32}
use trusted_gateway.Ringbuf.Ops.{copy_from, copy_out}
use trusted_gateway.Iovec.Ops.{
  Memory, bytes, poke, scatter_from, membuf_to_kern_iovec, scatter_skipping, start_of,
  membuf_to_kern_iovec_skip_begin,
}

-- A stretch of the memory that ends before a write, or begins behind it, is as before.
pub bytes-poke_apart :
    (mem : Memory) (a n b : ℕ) (xs : List ℕ)
    → (a + n ≤ b) ⊎ (b + length xs ≤ a)
    → bytes (poke mem b xs) a n ≡ bytes mem a n
unfolding bytes poke
bytes-poke_apart mem a zero b xs h = refl
bytes-poke_apart mem a (suc n) b xs h = ap₂ ◌∷◌ here (bytes-poke_apart mem (a + 1) n b xs (next h))
  where
    here : (if leb b a && ltb a (b + length xs) then get_or xs (a - b) 0 else mem a) ≡ mem a
    here = ground (arith, h)

    next : (a + suc n ≤ b) ⊎ (b + length xs ≤ a) → (a + 1 + n ≤ b) ⊎ (b + length xs ≤ a + 1)
    next (inl p) = inl (omega arith)
    next (inr p) = inr (omega arith)

-- Reading from within a stretch that was written.
bytes-poke_from :
    (mem : Memory) (b k n : ℕ) (xs : List ℕ)
    → k + n ≡ length xs
    → bytes (poke mem b xs) (b + k) n ≡ drop k xs
unfolding bytes poke
bytes-poke_from mem b k zero xs h = sym (drop_all k xs (omega arith))
bytes-poke_from mem b k (suc n) xs h =
    ap₂ ◌∷◌ here (
      ap (λ j. bytes (poke mem b xs) j n) {y = b + suc k} (omega arith)
      ∙ bytes-poke_from mem b (suc k) n xs (omega arith))
    ∙ sym (drop-get_or k xs 0 (omega arith))
  where
    at_k : b + k - b ≡ k
    at_k = omega arith

    here :
        (if leb b (b + k) && ltb (b + k) (b + length xs)
          then get_or xs (b + k - b) 0
          else mem (b + k))
        ≡ get_or xs k 0
    here = ground (arith, ap (λ j. get_or xs j 0) at_k)

pub bytes-poke : (mem : Memory) (b : ℕ) (xs : List ℕ) → bytes (poke mem b xs) b (length xs) ≡ xs
bytes-poke mem b xs =
    ap (λ j. bytes (poke mem b xs) j (length xs)) {y = b + 0} (omega arith)
    ∙ bytes-poke_from mem b 0 (length xs) xs (omega arith)

pub bytes_append :
    (mem : Memory) (a m n : ℕ) → bytes mem a (m + n) ≡ bytes mem a m ++ bytes mem (a + m) n
unfolding bytes
bytes_append mem a zero n = ap₂ (bytes mem) {x = a} (omega arith) (omega arith)
bytes_append mem a (suc m) n =
    ap (bytes mem a) {x = suc m + n} {y = suc (m + n)} (omega arith)
    ∙ ap (λ xs. mem a ∷ xs)
        (bytes_append mem (a + 1) m n
          ∙ ap (λ j. bytes mem (a + 1) m ++ bytes mem j n) {x = a + 1 + m} (omega arith))

-- A copy into one entry that has room for it.
pub membuf_to_kern_iovec_one :
    (mem : Memory) (v : Iov) (buf : List ℕ) (o len : ℕ)
    → v.base ≢ 0
    → 0 < len
    → len ≤ v.len
    → o + len ≤ length buf
    → membuf_to_kern_iovec mem (v ∷ []) buf o len ≡ ok (len, poke mem v.base (copy_from buf o len))
unfolding membuf_to_kern_iovec scatter_from copy_out
membuf_to_kern_iovec_one mem v buf o len based some fits room = ground arith

-- A copy behind a prefix into one entry that has room for it: all of the entry behind the prefix is
-- written, however few bytes the caller has asked for.
pub membuf_to_kern_iovec_skip_begin_one :
    (mem : Memory) (v : Iov) (buf : List ℕ) (o len prefix_skip : ℕ)
    → v.base ≢ 0
    → v.len < 0x100000000
    → 0 < prefix_skip
    → 0 < len
    → prefix_skip + len ≤ v.len
    → membuf_to_kern_iovec_skip_begin mem (v ∷ []) buf o len prefix_skip ≡ (
        if leb (o + (v.len - prefix_skip)) (length buf)
        then ok (len, poke mem (v.base + prefix_skip) (copy_from buf o (v.len - prefix_skip)))
        else panic out_of_bounds)
unfolding membuf_to_kern_iovec_skip_begin scatter_skipping copy_out
membuf_to_kern_iovec_skip_begin_one mem v buf o len prefix_skip based small begins some fits =
    rw (plain, start) (ground arith)
  where
    plain : u32 (0 + v.len) ≡ v.len
    plain = omega arith

    start : start_of v (v.len - prefix_skip) ≡ prefix_skip
    start = omega arith
