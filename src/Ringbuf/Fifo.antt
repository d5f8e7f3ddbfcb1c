-- ===== src/Ringbuf/Fifo.antt =====
-- The bytes of the ring, oldest first, and the copies of a put.
use trusted_gateway.Prelude.{
  ℕ, ◌+◌, ◌-◌, ◌%◌, ◌≤◌, ◌<◌, ◌≡◌, ap, sym, ◌∙◌, Bool, true, false, List, ok, ◌>>=◌, arith, length,
  take, drop, length-take, length-drop, inl, inr, ltb, leb, Bool-cases, ◌||◌,
}
use trusted_gateway.Pktq.Ops.{Pktq, store_all}
use trusted_gateway.Pktq.Contents.{items}
use trusted_gateway.Ringbuf.Ops.{
  SwBuff, size, till_end, spaceleft_sw_buffer, dataleft_sw_buffer, copy_to, copy_in, put_copies,
}
use trusted_gateway.Ringbuf.Copies.{
  copy_in_ok, length-copy_to, store_all-copy_to, store_all_append, take_split,
}

pub record IsValid (b : SwBuff) : Type 0 where
  pub sized : length b.buffer ≡ size
  pub head_in : b.head < size
  pub tail_in : b.tail < size
  pub full_closed : b.full ≡ true → b.head ≡ b.tail

-- The ring as a queue of bytes.
abbrev pub queue : SwBuff → Pktq
queue b = record {
  stopped = false;
  next_read = b.head;
  next_write = b.tail;
  count = dataleft_sw_buffer b;
  capacity = size;
  pkt = b.buffer;
}

abbrev pub bytes : SwBuff → List ℕ
bytes b = items b.buffer size b.head 0 (dataleft_sw_buffer b)

pub record Measured (b : SwBuff) : Type 0 where
  pub bounded : dataleft_sw_buffer b ≤ size
  pub space : spaceleft_sw_buffer b ≡ size - dataleft_sw_buffer b
  pub ends_at : b.tail ≡ (b.head + dataleft_sw_buffer b) % size
  pub open_left : b.full ≡ false → dataleft_sw_buffer b < size

pub valid-Measured : (b : SwBuff) → IsValid b → Measured b
unfolding spaceleft_sw_buffer dataleft_sw_buffer
valid-Measured b v = record {
  bounded = ground arith;
  space = ground arith;
  ends_at = ground arith;
  open_left = ground arith;
}

pub put_copies_lem :
    (b : SwBuff) (sent : ℕ) (xs : List ℕ)
    → IsValid b
    → sent ≤ spaceleft_sw_buffer b
    → sent ≤ length xs
    → put_copies b sent xs ≡ ok (store_all (queue b) (take sent xs)).pkt
unfolding put_copies spaceleft_sw_buffer
put_copies_lem b sent xs v h l = elim (Bool-cases together) [
  | inl e ↦ rw e (
      copy_in_ok b.buffer b.tail (take sent xs) (omega (arith, fits e, taken sent l, v.sized))
      ∙ ap (λ (q : Pktq). ok q.pkt)
          (sym (
            store_all-copy_to (queue b) (take sent xs) v.tail_in
              (omega (arith, fits e, taken sent l)))))
  | inr e ↦ let (te, wraps) = split e in rw e (two te wraps)
]
  where
    together : Bool
    together = ltb b.tail b.head || leb sent (till_end b.tail)

    fits : together ≡ true → b.tail + sent ≤ size
    fits e = ground (arith, v.tail_in, v.head_in, h)

    split : together ≡ false → (till_end b.tail ≡ size - b.tail) × (size - b.tail < sent)
    split e = ground (arith, v.tail_in)

    taken : (n : ℕ) → n ≤ length xs → length (take n xs) ≡ n
    taken n r = omega (arith, length-take n xs)

    two :
        till_end b.tail ≡ size - b.tail
        → size - b.tail < sent
        → (copy_in b.buffer b.tail (take (till_end b.tail) xs) >>= λ buf.
            copy_in buf 0 (take (sent - till_end b.tail) (drop (till_end b.tail) xs)))
          ≡ ok (store_all (queue b) (take sent xs)).pkt
    two te wraps = rw te (
        rw
          (copy_in_ok b.buffer b.tail (take m xs) (omega (arith, taken m room, v.sized, v.tail_in)))
          (copy_in_ok first 0 rest (
              omega (
                arith,
                length-copy_to b.buffer b.tail (take m xs),
                rest_length,
                v.sized,
                h,
                v.head_in,
                space_le,
              ))
            ∙ ap (λ (q : Pktq). ok q.pkt) (sym stored)))
      where
        m : ℕ
        m = size - b.tail

        room : m ≤ length xs
        room = omega arith

        first : List ℕ
        first = copy_to b.buffer b.tail (take m xs)

        rest : List ℕ
        rest = take (sent - m) (drop m xs)

        rest_length : length rest ≡ sent - m
        rest_length = omega (arith, length-take (sent - m) (drop m xs), length-drop m xs)

        space_le : sent ≤ size
        space_le = ground (arith, v.head_in, v.tail_in)

        q0 : Pktq
        q0 = record (queue b) { pkt = first; next_write = 0 }

        at_start : store_all (queue b) (take m xs) ≡ q0
        at_start =
            store_all-copy_to (queue b) (take m xs) v.tail_in
              (omega (arith, taken m room, v.tail_in))
            ∙ ap (λ w. record (queue b) { pkt = first; next_write = w % size })
                {x = b.tail + length (take m xs)} {y = size}
                (omega (arith, taken m room, v.tail_in))

        stored :
            store_all (queue b) (take sent xs)
            ≡ record q0 { pkt = copy_to first 0 rest; next_write = (0 + length rest) % size }
        stored =
            ap (store_all (queue b)) (take_split m sent xs (omega arith))
            ∙ store_all_append (queue b) (take m xs) rest
            ∙ ap (λ q. store_all q rest) at_start
            ∙ store_all-copy_to q0 rest (omega arith) (omega (arith, rest_length, space_le))
