-- ===== src/Ringbuf/Puts.antt =====
-- The ring is a bounded FIFO of bytes, but for a put that fills it exactly.
use trusted_gateway.Prelude.{
  ℕ, ◌+◌, ◌%◌, ◌≤◌, ◌≡◌, ◌≢◌, refl, ap, sym, ◌∙◌, Bool, true, false, List, [], ◌++◌, min, ok,
  Returns, arith, length, take, length-take, ltb, if◌then◌else◌, ◌||◌,
}
use trusted_gateway.Pktq.Ops.{store_all}
use trusted_gateway.Pktq.Contents.{items}
use trusted_gateway.Pktq.Refine.{store_all-Stored, filled_zero}
use trusted_gateway.Ringbuf.Ops.{
  SwBuff, size, spaceleft_sw_buffer, dataleft_sw_buffer, put_sw_buffer,
}
use trusted_gateway.Ringbuf.Fifo.{IsValid, queue, bytes, valid-Measured, put_copies_lem}

-- The ring behind a put of `sent` bytes.
abbrev after_put : SwBuff → List ℕ → ℕ → Bool → SwBuff
after_put b buf sent over = record b { buffer = buf; tail = (b.tail + sent) % size; full = over }

dataleft-put :
    (b : SwBuff) (buf : List ℕ) (sent : ℕ) (over : Bool)
    → IsValid b
    → b.full ≡ false
    → sent ≤ spaceleft_sw_buffer b
    → (sent ≡ spaceleft_sw_buffer b → over ≡ true)
    → (over ≡ true → sent ≡ spaceleft_sw_buffer b)
    → dataleft_sw_buffer (after_put b buf sent over) ≡ dataleft_sw_buffer b + sent
unfolding spaceleft_sw_buffer dataleft_sw_buffer
dataleft-put b buf sent over v f h fills over_fills = ground arith

dataleft-put_exact :
    (b : SwBuff) (buf : List ℕ) (sent : ℕ)
    → IsValid b
    → b.full ≡ false
    → sent ≡ spaceleft_sw_buffer b
    → dataleft_sw_buffer (after_put b buf sent false) ≡ 0
unfolding spaceleft_sw_buffer dataleft_sw_buffer
dataleft-put_exact b buf sent v f h = ground arith

after_put-IsValid :
    (b : SwBuff) (buf : List ℕ) (sent : ℕ) (over : Bool)
    → IsValid b
    → length buf ≡ size
    → (over ≡ true → sent ≡ spaceleft_sw_buffer b)
    → IsValid (after_put b buf sent over)
unfolding spaceleft_sw_buffer
after_put-IsValid b buf sent over v e o = record {
  sized = e;
  head_in = v.head_in;
  tail_in = omega arith;
  full_closed = ground (arith, v.head_in, v.tail_in);
}

-- The bytes that the stores of a put leave.
stored_lem :
    (b : SwBuff) (ys : List ℕ)
    → IsValid b
    → length ys ≤ spaceleft_sw_buffer b
    → let buf = (store_all (queue b) ys).pkt in
      (length buf ≡ size)
      × (items buf size b.head 0 (dataleft_sw_buffer b + length ys) ≡ bytes b ++ ys)
stored_lem b ys v h =
    let d = valid-Measured b v in
    let (f, w, c, cap, r) =
      store_all-Stored (queue b) 0 (length ys) ys (omega arith)
        (record {
          slots = v.sized;
          read_in = v.head_in;
          bounded = omega (arith, d.bounded);
          write_at =
              d.ends_at
              ∙ ap (λ j. (b.head + j) % size) {y = dataleft_sw_buffer b + 0} (omega arith);
        })
        (omega (arith, d.bounded, d.space)) in
    let q' = store_all (queue b) ys in
    (
      w.slots ∙ cap,
      ap (λ j. items q'.pkt size j 0 (dataleft_sw_buffer b + length ys)) (sym r)
          ∙ ap (λ j. items q'.pkt j q'.next_read 0 (dataleft_sw_buffer b + length ys)) (sym cap)
          ∙ ap (λ j. items q'.pkt q'.capacity q'.next_read 0 (j + length ys)) (sym c)
          ∙ f
          ∙ ap (λ xs. xs ++ ys) (filled_zero (queue b)),
    )

module _ (b : SwBuff) (xs : List ℕ) (v : IsValid b) (open_ring : b.full ≡ false) where
  abbrev space : ℕ
  space = spaceleft_sw_buffer b

  abbrev over : Bool
  over = ltb space (length xs)

  abbrev sent : ℕ
  sent = if over then space else length xs

  sent_lem : (sent ≤ space) × (sent ≤ length xs) × (sent ≡ min (length xs) space)
  sent_lem = ground arith

  put_returns :
      put_sw_buffer b xs ≡ ok (sent, after_put b (store_all (queue b) (take sent xs)).pkt sent over)
  unfolding put_sw_buffer
  put_returns =
      let (le, le', e) = sent_lem in rw roomy (rw (put_copies_lem b sent xs v le le') refl)
    where
      roomy : (b.full || ltb size space) ≡ false
      roomy = ground (arith, open_ring, (valid-Measured b v).space)

  -- A put into a ring that is not full, unless the bytes fit and leave no room: as many of the bytes
  -- as there is room for are added behind the others, their number is the answer, the copies stay in
  -- the array, and the ring stays valid.
  pub put_sw_buffer_lem :
      length xs ≢ spaceleft_sw_buffer b
      → Returns
          (λ (r : ℕ × SwBuff).
            (r.0 ≡ min (length xs) (spaceleft_sw_buffer b))
            × (bytes r.1 ≡ bytes b ++ take r.0 xs)
            × IsValid r.1)
          (put_sw_buffer b xs)
  put_sw_buffer_lem ne =
      let (le, le', e) = sent_lem in
      let (sized, kept) =
        stored_lem b (take sent xs) v (omega (arith, length-take sent xs, le, le')) in
      let n = (store_all (queue b) (take sent xs)).pkt in
      rw put_returns (
        e,
        ap (items n size b.head 0) (
              dataleft-put b n sent over v open_ring le (ground (arith, ne)) (ground arith)
              ∙ ap (λ j. dataleft_sw_buffer b + j) (omega (arith, length-take sent xs, le')))
            ∙ kept,
        after_put-IsValid b n sent over v sized (ground arith),
      )

  -- A put of exactly as many bytes as there is room for answers their number, and leaves the ring
  -- looking empty: the bytes of the put and all those before it are lost.
  pub put_sw_buffer-exact :
      length xs ≡ spaceleft_sw_buffer b
      → Returns (λ (r : ℕ × SwBuff). (r.0 ≡ length xs) × (bytes r.1 ≡ [])) (put_sw_buffer b xs)
  put_sw_buffer-exact e =
      let n = (store_all (queue b) (take sent xs)).pkt in
      rw put_returns (
        ground arith,
        ap (items n size b.head 0) (
            ap (λ (w : Bool). dataleft_sw_buffer (after_put b n sent w)) {y = false} (ground arith)
            ∙ dataleft-put_exact b n sent v open_ring (ground arith)),
      )
