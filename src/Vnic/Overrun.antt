-- ===== src/Vnic/Overrun.antt =====
-- What the checks of the send loop do not catch: an entry longer than the list's length, as lengths
-- that add up past 32 bits give, or a length that changes between its two reads.
use trusted_gateway.Prelude.{
  ℕ, ◌+◌, ◌≤◌, ◌<◌, ◌≡◌, ◌≢◌, refl, subst, ◌∙◌, true, false, List, ◌∷◌, ◌++◌, append-nil, panic,
  out_of_bounds, arith, ◌!=◌, ◌==◌, ltb, ◌||◌, min, replicate, take, inl, inr,
}
use mathlib.Core.Path.{ap₂}
use trusted_gateway.Vqueue.State.{Iov, Iovs}
use trusted_gateway.Vqueue.Iovs.{vqueue_map_iovs, map_from, with_base}
use trusted_gateway.Vqueue.Layout.{unmap-map, mapped}
use trusted_gateway.Vqueue.Readable.{map_from-Based}
use trusted_gateway.Ringbuf.Ops.{copy_to}
use trusted_gateway.Iovec.Ops.{Memory, bytes}
use trusted_gateway.Iovec.Gather.{gathered, total, Based, take-bytes, kern_iovec_to_membuf_lem}
use trusted_gateway.Iovec.Skip.{kern_iovec_to_membuf_skip_begin-panic}
use trusted_gateway.Vnic.Frames.{Frame, hdr_len}
use trusted_gateway.Vnic.FlushTx.{Round, Tx, copy_data, copy_header, packet_len, bad_len, with_buf}
use trusted_gateway.Vnic.Delivered.{Fresh}

-- The header is read from the first entry, if it is long enough.
header_lem :
    (mem : Memory) (v : Iov) (vs : List Iov)
    → hdr_len ≤ v.len
    → take hdr_len (gathered mem (v ∷ vs)) ≡ bytes mem v.base hdr_len
header_lem mem v vs h =
    take-bytes mem v.base hdr_len v.len (gathered mem vs)
    ∙ ap₂ (λ j k. bytes mem v.base j ++ take k (gathered mem vs)) {y = hdr_len} {v = 0}
        (omega arith) (omega arith)
    ∙ append-nil (bytes mem v.base hdr_len)

-- A list whose first entry is longer than a packet buffer, while its length, to which the second reads
-- of the entries' lengths were added in 32 bits, is that of a packet.
pub record Wrapped (l : Iovs) (v : Iov) (vs : List Iov) : Type 0 where
  pub entries : l.iovs ≡ v ∷ vs
  pub some_used : 1 ≤ l.used
  pub room : l.used ≤ l.cnt
  pub first : 2058 < v.len
  pub in_u32 : v.len < 0x100000000
  pub lower : 54 ≤ l.len
  pub upper : l.len ≤ 2058

module _ (va : ℕ → ℕ) (r : Round) (f : Frame) (t : Tx) (v : Iov) (vs : List Iov) where
  -- A chain whose first entry is longer than a packet buffer, but whose length, as the list keeps it
  -- in 32 bits, is that of a packet, passes all checks, and the copy writes outside of the packet
  -- buffer: in C the heap of the trusted side is overwritten, with bytes of the normal world's choice.
  pub with_buf-panic :
      Wrapped t.buf.in_iovs v vs
      → Fresh f
      → f.eb.data_off ≡ 2
      → (map_from va (v ∷ vs)).1 ≡ true
      → r.header_mem (va v.phys) ≡ 0
      → r.header_mem (va v.phys + 1) ≡ 0
      → with_buf va r f t ≡ panic out_of_bounds
  unfolding with_buf vqueue_map_iovs bad_len copy_header copy_data copy_to bytes
  with_buf-panic w (sized, cap) off done flags gso =
      rw (few, fits, w.entries, done, same, long)
        (rw
          (kern_iovec_to_membuf_lem r.header_mem l (replicate hdr_len 0) 0 hdr_len based
            (omega arith))
          (rw
            (
              whole,
              header_lem r.header_mem (with_base (va v.phys) v) (mapped va vs)
                  (omega (arith, w.first)),
              flags,
              gso,
            )
            (rw
              (kern_iovec_to_membuf_skip_begin-panic r.data_mem (with_base (va v.phys) v)
                (mapped va vs) f.eb.buf f.eb.data_off (packet_len t.buf.in_iovs) hdr_len
                (not_null based) w.in_u32 (omega arith) (omega (arith, w.first))
                (omega (arith, w.lower, w.upper)) (omega (arith, sized, off, w.first)))
              refl)))
    where
      few : ltb t.buf.in_iovs.used 1 ≡ false
      few = ground (arith, w.some_used)

      fits : ltb t.buf.in_iovs.cnt t.buf.in_iovs.used ≡ false
      fits = ground (arith, w.room)

      l : List Iov
      l = with_base (va v.phys) v ∷ mapped va vs

      same : (map_from va (v ∷ vs)).0 ≡ l
      same = (unmap-map va (v ∷ vs) done).0

      based : Based l
      based = subst Based same (map_from-Based va (v ∷ vs) done).0

      long :
          (ltb v.len 12
            || ((packet_len t.buf.in_iovs == 0)
                || (ltb (packet_len t.buf.in_iovs) 42 || ltb 2046 (packet_len t.buf.in_iovs))))
          ≡ false
      long = ground (arith, w.first, w.lower, w.upper)

      not_null : Based l → va v.phys ≢ 0
      not_null (inl e, bs) = absurd (omega (arith, e, w.first))
      not_null (inr e, bs) = e

      whole : (min hdr_len (v.len + total (mapped va vs)) != hdr_len) ≡ false
      whole = ground (arith, w.first)
