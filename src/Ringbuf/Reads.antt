-- ===== src/Ringbuf/Reads.antt =====
-- A get reads the oldest bytes of the ring.
use trusted_gateway.Prelude.{
  ℕ, zero, suc, ◌+◌, ◌-◌, ◌%◌, ◌≤◌, ◌<◌, ◌≡◌, ◌≢◌, refl, ap, sym, ◌∙◌, Bool, true, false, List, ◌∷◌,
  ◌++◌, min, ok, Returns, arith, length, get_or, take, drop, inl, inr, ltb, leb, ◌==◌,
  if◌then◌else◌, Bool-cases, not, ◌&&◌, ◌||◌,
}
use mathlib.Core.Path.{ap₂}
use trusted_gateway.Pktq.Contents.{items, drop-items, items_shift, items_append}
use trusted_gateway.Ringbuf.Ops.{
  SwBuff, size, till_end, dataleft_sw_buffer, copy_from, copy_out, get_copies, get_sw_buffer,
}
use trusted_gateway.Ringbuf.Copies.{copy_from-items}
use trusted_gateway.Ringbuf.Fifo.{IsValid, bytes, valid-Measured}

-- Reading the ring's first bytes.
copy_out_ok :
    (buf : List ℕ) (o n : ℕ) → o + n ≤ length buf → copy_out buf o n ≡ ok (copy_from buf o n)
unfolding copy_out
copy_out_ok buf o n h = ground arith

get_copies_lem :
    (b : SwBuff) (n : ℕ)
    → IsValid b
    → n ≤ dataleft_sw_buffer b
    → get_copies b n ≡ ok (items b.buffer size b.head 0 n)
unfolding get_copies dataleft_sw_buffer
get_copies_lem b n v h = elim (Bool-cases together) [
  | inl e ↦ rw e (
      copy_out_ok b.buffer b.head n (omega (arith, fits e, v.sized))
      ∙ ap ok (segment b.head n (fits e)))
  | inr e ↦
      let (te, wraps) = split e in
      let m = size - b.head in
      rw e (
        rw te (
          rw (copy_out_ok b.buffer b.head m (omega (arith, v.sized, v.head_in))) (
            rw (copy_out_ok b.buffer 0 (n - m) (omega (arith, v.sized, few)))
              (ap ok (halves (omega arith))))))
]
  where
    together : Bool
    together = ltb b.head b.tail || leb n (till_end b.head)

    fits : together ≡ true → b.head + n ≤ size
    fits e = ground (arith, v.tail_in, v.head_in, h)

    few : n ≤ size
    few = ground (arith, v.tail_in, v.head_in, h)

    split : together ≡ false → (till_end b.head ≡ size - b.head) × (size - b.head < n)
    split e = ground (arith, v.head_in)

    segment : (r m : ℕ) → r + m ≤ size → copy_from b.buffer r m ≡ items b.buffer size r 0 m
    segment r m l =
        ap (λ j. copy_from b.buffer j m) {y = r + 0} (omega arith)
        ∙ copy_from-items b.buffer size r 0 m (omega arith)

    halves :
        size - b.head ≤ n
        → copy_from b.buffer b.head (size - b.head) ++ copy_from b.buffer 0 (n - (size - b.head))
          ≡ items b.buffer size b.head 0 n
    halves l =
        ap₂ ◌++◌ (segment b.head m (omega (arith, v.head_in))) (
          segment 0 (n - m) (omega (arith, few))
          ∙ ap (λ j. items b.buffer size j 0 (n - m)) {y = (b.head + m) % size}
              (omega (arith, v.head_in))
          ∙ sym (items_shift b.buffer size b.head m 0 (n - m)))
        ∙ sym (items_append b.buffer size b.head 0 m (n - m))
        ∙ ap (items b.buffer size b.head 0) {x = m + (n - m)} (omega (arith, l))
      where
        m : ℕ
        m = size - b.head

take-items :
    (buf : List ℕ) (cap r k m n : ℕ) → m ≤ n → take m (items buf cap r k n) ≡ items buf cap r k m
take-items buf cap r k zero n h = refl
take-items buf cap r k (suc m) zero h = absurd (omega arith)
take-items buf cap r k (suc m) (suc n) h =
    ap (λ xs. get_or buf ((r + k) % cap) 0 ∷ xs) (take-items buf cap r (suc k) m n (omega arith))

-- The ring behind a get of `n` bytes.
abbrev after_get : SwBuff → ℕ → SwBuff
after_get b n = record b { head = (b.head + n) % size; full = if n == 0 then b.full else false }

dataleft-get :
    (b : SwBuff) (n : ℕ)
    → IsValid b
    → n ≤ dataleft_sw_buffer b
    → dataleft_sw_buffer (after_get b n) ≡ dataleft_sw_buffer b - n
unfolding dataleft_sw_buffer
dataleft-get b n v h = ground arith

after_get-IsValid : (b : SwBuff) (n : ℕ) → IsValid b → IsValid (after_get b n)
after_get-IsValid b n v = record {
  sized = v.sized;
  head_in = omega arith;
  tail_in = v.tail_in;
  full_closed = ground (arith, v.full_closed, v.head_in, v.tail_in);
}

nonempty_lem :
    (b : SwBuff) → IsValid b → dataleft_sw_buffer b ≢ 0 → ((b.head == b.tail) && not b.full) ≡ false
unfolding dataleft_sw_buffer
nonempty_lem b v h = ground arith

-- A get from a valid ring that holds some bytes answers the oldest of them, as many as are asked for
-- or as there are, in their order, and drops them; the copies stay in the array, and the ring stays
-- valid.
pub get_sw_buffer_lem :
    (b : SwBuff) (len : ℕ)
    → IsValid b
    → dataleft_sw_buffer b ≢ 0
    → Returns
        (λ (r : List ℕ × SwBuff).
          (r.0 ≡ take (min len (dataleft_sw_buffer b)) (bytes b))
          × (bytes r.1 ≡ drop (min len (dataleft_sw_buffer b)) (bytes b))
          × IsValid r.1)
        (get_sw_buffer b len)
unfolding get_sw_buffer
get_sw_buffer_lem b len v some_left =
    rw fine (rw (get_copies_lem b n v few) (taken, dropped, after_get-IsValid b n v))
  where
    left : ℕ
    left = dataleft_sw_buffer b

    n : ℕ
    n = if ltb left len then left else len

    least : n ≡ min len left
    least = ground arith

    few : n ≤ left
    few = ground arith

    fine : (((b.head == b.tail) && not b.full) || ltb size left) ≡ false
    fine = ground (arith, nonempty_lem b v some_left, (valid-Measured b v).bounded)

    taken : items b.buffer size b.head 0 n ≡ take (min len left) (bytes b)
    taken = sym (take-items b.buffer size b.head 0 n left few) ∙ ap (λ j. take j (bytes b)) least

    dropped : bytes (after_get b n) ≡ drop (min len left) (bytes b)
    dropped =
        ap (items b.buffer size ((b.head + n) % size) 0) (dataleft-get b n v few)
        ∙ sym (items_shift b.buffer size b.head n 0 (left - n))
        ∙ sym (drop-items b.buffer size b.head 0 n left few)
        ∙ ap (λ j. drop j (bytes b)) least
