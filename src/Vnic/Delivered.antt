-- ===== src/Vnic/Delivered.antt =====
-- What the send loop makes of the normal world's buffers: a round copies exactly the bytes behind the
-- header, inside the packet buffer, if no descriptor is longer than a gigabyte.
use trusted_gateway.Prelude.{
  ℕ, ◌-◌, ◌≤◌, ◌<◌, ◌≡◌, refl, ap, sym, ◌∙◌, Bool, true, false, List, [], ◌∷◌, ◌++◌, ok, Returns,
  arith, ◌!=◌, get_or, ltb, ◌||◌, min, replicate, Bool-cases, inl, inr, length, length-drop, take,
  drop, ◌⊎◌, if◌then◌else◌,
}
use trusted_gateway.Vqueue.State.{Iov, Iovs}
use trusted_gateway.Vqueue.Iovs.{vqueue_map_iovs, vqueue_unmap_iovs, map_from}
use trusted_gateway.Vqueue.Layout.{unmap-map, unmapped, mapped}
use trusted_gateway.Vqueue.Readable.{Readable, total-Readable, map_from-Based}
use trusted_gateway.Ringbuf.Ops.{copy_to, copy_from}
use trusted_gateway.Ringbuf.Copies.{length-copy_to}
use trusted_gateway.Ethbuf.Data.{payload}
use trusted_gateway.Ethbuf.Bytes.{IsValid, copy_from-copy_to}
use trusted_gateway.Iovec.Ops.{Memory}
use trusted_gateway.Iovec.Gather.{gathered, total, Based, length-gathered, kern_iovec_to_membuf_lem}
use trusted_gateway.Iovec.Skip.{kern_iovec_to_membuf_skip_begin_lem}
use trusted_gateway.Vnic.Frames.{Frame, hdr_len}
use trusted_gateway.Vnic.FlushTx.{
  Round, Tx, Flush, After, next, flush, leave, free_frame, hand_back, tx_error, copy_data,
  copy_header, packet_len, bad_len, with_buf, first_len,
}

-- A buffer as the pool hands it out.
abbrev pub Fresh : Frame → Type 0
Fresh f = (length f.eb.buf ≡ 2048) × (f.eb.buf_cap ≡ 2048)

-- The packet buffer with the bytes behind the header.
abbrev pub filled : Memory → Iovs → Frame → Frame
filled mem l f = record f {
  eb = record f.eb {
    data_len = total l.iovs - hdr_len;
    buf = copy_to f.eb.buf f.eb.data_off (drop hdr_len (gathered mem l.iovs));
  };
}

-- The list of a mapped chain whose length passes the checks.
pub record Mapped (l : Iovs) : Type 0 where
  pub based : Based l.iovs
  pub summed : l.len ≡ total l.iovs
  pub no_wrap : total l.iovs < 0x100000000
  pub lower : 54 ≤ total l.iovs
  pub upper : total l.iovs ≤ 2058

copy_data-filled :
    (mem : Memory) (l : Iovs) (f : Frame) (t : Tx)
    → Mapped l
    → Fresh f
    → f.eb.data_off ≡ 2
    → copy_data mem l (total l.iovs - hdr_len) f t
      ≡ hand_back l
          (total l.iovs - hdr_len)
          (record t { frames = t.frames ++ (filled mem l f ∷ []) })
unfolding copy_data
copy_data-filled mem l f t m (sized, cap) off =
    rw
      (kern_iovec_to_membuf_skip_begin_lem mem l.iovs f.eb.buf f.eb.data_off
        (total l.iovs - hdr_len) hdr_len m.based (omega (arith, sized, m.upper))
        (omega (arith, m.lower)) m.no_wrap (omega (arith, m.lower)) (omega (arith, m.lower)))
      (rw same refl)
  where
    same : (total l.iovs - hdr_len != total l.iovs - hdr_len) ≡ false
    same = ground arith

-- The header that the first copy reads.
abbrev pub header : Memory → Iovs → List ℕ
header mem l = copy_to (replicate hdr_len 0) 0 (take hdr_len (gathered mem l.iovs))

abbrev pub flagged : Memory → Iovs → Bool
flagged mem l = (get_or (header mem l) 0 0 != 0) || (get_or (header mem l) 1 0 != 0)

copy_header-filled :
    (r : Round) (l : Iovs) (f : Frame) (t : Tx)
    → Mapped l
    → Fresh f
    → f.eb.data_off ≡ 2
    → copy_header r l (total l.iovs - hdr_len) f t ≡ (
        if flagged r.header_mem l
        then tx_error l Flush.invalid_args (free_frame f t)
        else hand_back l
            (total l.iovs - hdr_len)
            (record t { frames = t.frames ++ (filled r.data_mem l f ∷ []) }))
unfolding copy_header
copy_header-filled r l f t m fresh off =
    rw
      (
        kern_iovec_to_membuf_lem r.header_mem l.iovs (replicate hdr_len 0) 0 hdr_len m.based
            (omega arith),
        enough,
      )
      (rw (copy_data-filled r.data_mem l f t m fresh off) refl)
  where
    enough : (min hdr_len (total l.iovs) != hdr_len) ≡ false
    enough = ground (arith, m.lower)

-- What a round that took a buffer off the ring ends in: the packet is dropped, or is put behind the
-- others with the bytes behind the header, or all packets are dropped on an error.
abbrev pub Delivered : (ℕ → ℕ) → Round → Frame → Tx → After → Type 0
Delivered va r f t (next t') =
    (t'.buf.in_iovs.cnt ≡ 4)
    × (((t'.frames ≡ t.frames) × (t'.freed ≡ f ∷ t.freed))
        ⊎ ((g : Frame) × (t'.frames ≡ t.frames ++ (g ∷ []))
            × (g.id ≡ f.id)
            × IsValid g.eb
            × (42 ≤ g.eb.data_len)
            × (g.eb.data_len ≤ 2046)
            × (payload g.eb ≡ drop hdr_len (gathered r.data_mem (mapped va t.buf.in_iovs.iovs)))))
Delivered va r f t (flush t') = ⊥
Delivered va r f t (leave e t') = t'.frames ≡ []

-- A list of mapped entries is unmapped again without a failed assertion.
unmap_mapped :
    (va : ℕ → ℕ) (l : Iovs)
    → Readable l
    → (map_from va l.iovs).1 ≡ true
    → vqueue_unmap_iovs (record l { iovs = (map_from va l.iovs).0 })
      ≡ ok (record l { iovs = unmapped l.iovs })
unfolding vqueue_unmap_iovs
unmap_mapped va l v done = rw (fits, (unmap-map va l.iovs done).1) refl
  where
    fits : ltb l.cnt l.used ≡ false
    fits = ground (arith, v.valid.room)

map_Readable :
    (va : ℕ → ℕ) (l : Iovs)
    → Readable l
    → vqueue_map_iovs va l ≡ ok (record l { iovs = (map_from va l.iovs).0 }, (map_from va l.iovs).1)
unfolding vqueue_map_iovs
map_Readable va l v = rw fits refl
  where
    fits : ltb l.cnt l.used ≡ false
    fits = ground (arith, v.valid.room)

map-Mapped :
    (va : ℕ → ℕ) (l : Iovs)
    → Readable l
    → (map_from va l.iovs).1 ≡ true
    → bad_len (record l { iovs = (map_from va l.iovs).0 }) ≡ false
    → Mapped (record l { iovs = (map_from va l.iovs).0 })
unfolding bad_len
map-Mapped va l v done fine =
    let (small, sums) = total-Readable l v in
    let (based, same) = map_from-Based va l.iovs done in
    let at_least = first-le-total (map_from va l.iovs).0 in
    record {
      based = based;
      summed = omega (arith, same);
      no_wrap = omega (arith, same);
      lower = ground (arith, fine, same, sums, small, at_least);
      upper = ground (arith, fine, same, sums, small, at_least);
    }
  where
    first-le-total : (vs : List Iov) → first_len vs ≤ total vs
    first-le-total [] = omega arith
    first-le-total (w ∷ ws) = omega arith

-- The packet buffer that a round fills.
filled_lem :
    (mem : Memory) (l : Iovs) (f : Frame)
    → Mapped l
    → Fresh f
    → f.eb.data_off ≡ 2
    → IsValid (filled mem l f).eb
      × (42 ≤ (filled mem l f).eb.data_len)
      × ((filled mem l f).eb.data_len ≤ 2046)
      × (payload (filled mem l f).eb ≡ drop hdr_len (gathered mem l.iovs))
filled_lem mem l f m (sized, cap) off = (
  record {
    sized = length-copy_to f.eb.buf f.eb.data_off xs ∙ sized ∙ sym cap;
    inside = omega (arith, m.upper, off, cap);
    in_u32 = omega (arith, cap);
  },
  omega (arith, m.lower),
  omega (arith, m.upper),
  ap (copy_from (copy_to f.eb.buf f.eb.data_off xs) f.eb.data_off) (sym long)
      ∙ copy_from-copy_to f.eb.buf f.eb.data_off xs (omega (arith, long, sized, off, m.upper)),
)
  where
    xs : List ℕ
    xs = drop hdr_len (gathered mem l.iovs)

    long : length xs ≡ total l.iovs - hdr_len
    long = omega (arith, length-drop hdr_len (gathered mem l.iovs), length-gathered mem l.iovs)

module _ (va : ℕ → ℕ) (r : Round) (f : Frame) (t : Tx) (v : Readable t.buf.in_iovs) where
  mapped_list : Iovs
  mapped_list = record t.buf.in_iovs { iovs = (map_from va t.buf.in_iovs.iovs).0 }

  hand_back-mapped :
      (total_len : ℕ) (t' : Tx)
      → (map_from va t.buf.in_iovs.iovs).1 ≡ true
      → (P : After → Type 0)
      → ((s : Tx)
          → s.buf.in_iovs.cnt ≡ t.buf.in_iovs.cnt
          → s.frames ≡ t'.frames
          → s.freed ≡ t'.freed
          → P (next s))
      → Returns P (hand_back mapped_list total_len t')
  unfolding hand_back mapped_list
  hand_back-mapped total_len t' done P keep =
      rw (unmap_mapped va t.buf.in_iovs v done) (keep _ refl refl refl)

  lengths-Delivered :
      Fresh f
      → f.eb.data_off ≡ 2
      → (map_from va t.buf.in_iovs.iovs).1 ≡ true
      → bad_len mapped_list ≡ false
      → Returns (Delivered va r f t) (copy_header r mapped_list (packet_len mapped_list) f t)
  unfolding mapped_list tx_error
  lengths-Delivered fresh off done fine =
      let m = map-Mapped va t.buf.in_iovs v done fine in
      let l = mapped_list in
      let same : packet_len l ≡ total l.iovs - hdr_len =
        omega (arith, m.summed, m.lower, m.no_wrap) in
      let (ok_eb, low, high, bytes_of) = filled_lem r.data_mem l f m fresh off in
      rw (same, copy_header-filled r l f t m fresh off)
        (elim (Bool-cases (flagged r.header_mem l)) [
          | inl e ↦ rw (e, unmap_mapped va t.buf.in_iovs v done) refl
          | inr e ↦ rw e (
              hand_back-mapped (total l.iovs - hdr_len)
                (record t { frames = t.frames ++ (filled r.data_mem l f ∷ []) }) done
                (Delivered va r f t)
                (λ s c fs fr. (
                  c ∙ v.four,
                  inr (
                    filled r.data_mem l f,
                    fs,
                    refl,
                    ok_eb,
                    low,
                    high,
                    bytes_of
                        ∙ ap (λ vs. drop hdr_len (gathered r.data_mem vs))
                            (unmap-map va t.buf.in_iovs.iovs done).0,
                  ),
                )))
        ])

  -- A round with a chain of at most four entries of less than a gigabyte each returns, whatever the
  -- normal world's memory holds. It drops the packet and gives its buffer back; or it puts behind the
  -- others a buffer with 42 to 2046 bytes inside its array, the chain's bytes behind the header; or
  -- it ends the call with an error and passes no packet on.
  pub with_buf-Delivered :
      Fresh f → f.eb.data_off ≡ 2 → Returns (Delivered va r f t) (with_buf va r f t)
  unfolding with_buf
  with_buf-Delivered fresh off = elim (Bool-cases (ltb t.buf.in_iovs.used 1)) [
    | inl e ↦ rw e refl
    | inr e ↦
        rw (e, map_Readable va t.buf.in_iovs v)
          (elim (Bool-cases (map_from va t.buf.in_iovs.iovs).1) [
            | inl done ↦ rw done (elim (Bool-cases (bad_len mapped_list)) [
              | inl u ↦
                  unfold mapped_list in
                  rw u (
                    hand_back-mapped (packet_len mapped_list) (free_frame f t) done
                      (Delivered va r f t) (λ s c fs fr. (c ∙ v.four, inl (fs, fr))))
              | inr u ↦ unfold mapped_list in rw u (lengths-Delivered fresh off done u)
            ])
            | inr done ↦ rw done refl
          ])
  ]
