-- ===== src/Ringbuf/Tests.antt =====
-- The ring's theorems where the bytes wrap around its end.
use trusted_gateway.Prelude.{
  ℕ, ◌≡◌, refl, false, List, [], ◌∷◌, ◌++◌, Returns, take, drop, length, arith, zero, suc, ap,
}
use trusted_gateway.Ringbuf.Ops.{
  SwBuff, size, zeros, put_sw_buffer, get_sw_buffer, spaceleft_sw_buffer, dataleft_sw_buffer,
}
use trusted_gateway.Ringbuf.Fifo.{IsValid, bytes}
use trusted_gateway.Ringbuf.Puts.{put_sw_buffer_lem, put_sw_buffer-exact}
use trusted_gateway.Ringbuf.Reads.{get_sw_buffer_lem}

length-zeros : (n : ℕ) → length (zeros n) ≡ n
length-zeros zero = refl
length-zeros (suc n) = ap suc (length-zeros n)

-- One byte before the end of the array.
abbrev near_end : SwBuff
near_end = record { buffer = zeros size; head = 2047; tail = 2047; full = false }

near_end-IsValid : IsValid near_end
near_end-IsValid = record {
  sized = length-zeros size;
  head_in = omega arith;
  tail_in = omega arith;
  full_closed = λ e. refl;
}

put_sw_buffer_lem_example :
    Returns
      (λ (r : ℕ × SwBuff).
        (r.0 ≡ 3) × (bytes r.1 ≡ bytes near_end ++ take r.0 (7 ∷ 8 ∷ 9 ∷ [])) × IsValid r.1)
      (put_sw_buffer near_end (7 ∷ 8 ∷ 9 ∷ []))
unfolding spaceleft_sw_buffer
put_sw_buffer_lem_example =
    put_sw_buffer_lem near_end (7 ∷ 8 ∷ 9 ∷ []) near_end-IsValid refl (omega arith)

-- 2047 bytes are there, and one more is put.
abbrev almost_full : SwBuff
almost_full = record { buffer = zeros size; head = 1; tail = 0; full = false }

almost_full-IsValid : IsValid almost_full
almost_full-IsValid = record {
  sized = length-zeros size;
  head_in = omega arith;
  tail_in = omega arith;
  full_closed = λ e. ground arith;
}

put_sw_buffer-exact_example :
    Returns (λ (r : ℕ × SwBuff). (r.0 ≡ 1) × (bytes r.1 ≡ [])) (put_sw_buffer almost_full (7 ∷ []))
unfolding spaceleft_sw_buffer
put_sw_buffer-exact_example = put_sw_buffer-exact almost_full (7 ∷ []) almost_full-IsValid refl refl

-- Two bytes, the second of them at the start of the array.
abbrev split_ring : SwBuff
split_ring = record near_end { tail = 1 }

split_ring-IsValid : IsValid split_ring
split_ring-IsValid = record {
  sized = length-zeros size;
  head_in = omega arith;
  tail_in = omega arith;
  full_closed = λ e. ground arith;
}

get_sw_buffer_lem_example :
    Returns
      (λ (r : List ℕ × SwBuff).
        (r.0 ≡ take 2 (bytes split_ring)) × (bytes r.1 ≡ drop 2 (bytes split_ring)) × IsValid r.1)
      (get_sw_buffer split_ring 9)
unfolding dataleft_sw_buffer
get_sw_buffer_lem_example = get_sw_buffer_lem split_ring 9 split_ring-IsValid (omega arith)
