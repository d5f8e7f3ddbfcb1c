-- ===== src/Vnic/Ownership.antt =====
-- What becomes of the buffers that the send loop takes from the pool.
use trusted_gateway.Prelude.{
  ℕ, zero, suc, ◌+◌, ◌≡◌, refl, ap, Bool, List, [], ◌∷◌, ◌++◌, Option, none, some, Outcome, ok,
  panic, Ensures, Ensures-bind, ◌>>=◌, arith, ◌!=◌, ◌==◌, min, max, not, get_or, ltb, ◌||◌,
  replicate, Bool-cases, inl, inr, count,
}
use trusted_gateway.Vqueue.State.{Ring, Vqueue, Iovs, Status}
use trusted_gateway.Vqueue.Avail.{vqueue_num_of_avail_buf}
use trusted_gateway.Vqueue.Iovs.{vqueue_map_iovs, vqueue_unmap_iovs}
use trusted_gateway.Iovec.Ops.{Memory, kern_iovec_to_membuf, kern_iovec_to_membuf_skip_begin}
use trusted_gateway.Pktq.Ops.{Pktq}
use trusted_gateway.Vnic.Frames.{Frame, ids, hdr_len, get_avail_buf}
use trusted_gateway.Vnic.FlushTx.{
  Round, Tx, Flush, After, next, flush, leave, free_frame, free_all, hand_back, tx_error, copy_data,
  copy_header, packet_len, bad_len, with_buf, on_status, aligned, with_frame, from_pool, tx_round,
  go_on, tx_loop, Flushed, finish, started, router_in_burst_size, virtio_net_flush_tx,
}

count_ids-append :
    (x : ℕ) (fs gs : List Frame) → count x (ids (fs ++ gs)) ≡ count x (ids fs) + count x (ids gs)
count_ids-append x [] gs = omega arith
count_ids-append x (f ∷ fs) gs = ground (arith, count_ids-append x fs gs)

-- Each buffer is as often among those that the loop holds or has given back as the pool has handed
-- it out; `owed` has those that are held outside the loop's array.
abbrev Balanced : List Frame → Tx → Type 0
Balanced owed t =
    (x : ℕ)
    → count x (ids t.got) ≡ count x (ids owed) + count x (ids t.frames) + count x (ids t.freed)

abbrev Settled : After → Type 0
Settled (next t) = Balanced [] t
Settled (flush t) = Balanced [] t
Settled (leave e t) = Balanced [] t × (t.frames ≡ [])

-- Each buffer that the pool has handed out went to the router or back to the pool, once.
abbrev pub Shared : Flushed → Type 0
Shared d = (x : ℕ) → count x (ids d.tx.got) ≡ count x (ids d.passed) + count x (ids d.tx.freed)

free_frame-Balanced : (f : Frame) (t : Tx) → Balanced (f ∷ []) t → Balanced [] (free_frame f t)
free_frame-Balanced f t b x = ground (arith, b x)

free_all-Balanced : (t : Tx) → Balanced [] t → Balanced [] (free_all t)
free_all-Balanced t b x = omega (arith, b x, count_ids-append x t.frames t.freed)

hand_back-Settled :
    (l : Iovs) (total : ℕ) (t : Tx) → Balanced [] t → Ensures Settled (hand_back l total t)
unfolding hand_back
hand_back-Settled l total t b = Ensures-bind Settled (vqueue_unmap_iovs l) _ (λ l'. b)

tx_error-Settled :
    (l : Iovs) (e : Flush) (f : Frame) (t : Tx)
    → Balanced (f ∷ []) t
    → Ensures Settled (tx_error l e (free_frame f t))
unfolding tx_error
tx_error-Settled l e f t b =
    Ensures-bind Settled (vqueue_unmap_iovs l) _
      (λ l'. (free_all-Balanced (free_frame f t) (free_frame-Balanced f t b), refl))

copy_data-Settled :
    (mem : Memory) (l : Iovs) (total : ℕ) (f : Frame) (t : Tx)
    → Balanced (f ∷ []) t
    → Ensures Settled (copy_data mem l total f t)
unfolding copy_data
copy_data-Settled mem l total f t b =
    Ensures-bind Settled
      (kern_iovec_to_membuf_skip_begin mem l.iovs f.eb.buf f.eb.data_off total hdr_len) _
      λ (n, buf').
        let full : Frame = record f { eb = record f.eb { data_len = total; buf = buf' } } in
        elim (Bool-cases (n != total)) [
          | inl e ↦ rw e (tx_error-Settled l Flush.generic full t b)
          | inr e ↦ rw e (
              hand_back-Settled l total (record t { frames = t.frames ++ (full ∷ []) })
                (λ x. ground (arith, b x, count_ids-append x t.frames (full ∷ []))))
        ]

copy_header-Settled :
    (r : Round) (l : Iovs) (total : ℕ) (f : Frame) (t : Tx)
    → Balanced (f ∷ []) t
    → Ensures Settled (copy_header r l total f t)
unfolding copy_header
copy_header-Settled r l total f t b =
    Ensures-bind Settled (kern_iovec_to_membuf r.header_mem l.iovs (replicate hdr_len 0) 0 hdr_len)
      _
      λ (n, hdr). elim (Bool-cases (n != hdr_len)) [
        | inl e ↦ rw e (tx_error-Settled l Flush.invalid_args f t b)
        | inr e ↦ rw e (elim (Bool-cases ((get_or hdr 0 0 != 0) || (get_or hdr 1 0 != 0))) [
          | inl u ↦ rw u (tx_error-Settled l Flush.invalid_args f t b)
          | inr u ↦ rw u (copy_data-Settled r.data_mem l total f t b)
        ])
      ]

ended : (o : Outcome After) → Ensures Settled o → Ensures Shared (o >>= λ a. ok (finish a))
ended (ok (next t)) b = λ x. omega (arith, b x)
ended (ok (flush t)) b = λ x. omega (arith, b x)
ended (ok (leave e t)) (b, none_left) =
    λ x. omega (arith, b x, ap (λ fs. count x (ids fs)) none_left)
ended (panic e) b = tt

module _ (get_va : ℕ → ℕ) where
  with_buf-Settled :
      (r : Round) (f : Frame) (t : Tx)
      → Balanced (f ∷ []) t
      → Ensures Settled (with_buf get_va r f t)
  unfolding with_buf
  with_buf-Settled r f t b = elim (Bool-cases (ltb t.buf.in_iovs.used 1)) [
    | inl e ↦ rw e (free_all-Balanced (free_frame f t) (free_frame-Balanced f t b), refl)
    | inr e ↦ rw e (
        Ensures-bind Settled (vqueue_map_iovs get_va t.buf.in_iovs) _ λ (l, done).
          elim (Bool-cases done) [
            | inl d ↦ rw d (elim (Bool-cases (bad_len l)) [
              | inl u ↦
                  rw u (
                    hand_back-Settled l (packet_len l) (free_frame f t) (free_frame-Balanced f t b))
              | inr u ↦ rw u (copy_header-Settled r l (packet_len l) f t b)
            ])
            | inr d ↦ rw d (free_all-Balanced (free_frame f t) (free_frame-Balanced f t b), refl)
          ])
  ]

  on_status-Settled :
      (r : Round) (f : Frame) (s : Status) (t : Tx)
      → Balanced (f ∷ []) t
      → Ensures Settled (on_status get_va r f s t)
  unfolding on_status
  on_status-Settled r f Status.no_error t b = with_buf-Settled r f t b
  on_status-Settled r f Status.not_enough_buffer t b = free_frame-Balanced f t b
  on_status-Settled r f s t b =
      (free_all-Balanced (free_frame f t) (free_frame-Balanced f t b), refl)

  from_pool-Settled :
      (r : Round) (o : Option Frame) (t : Tx)
      → Balanced [] t
      → Ensures Settled (from_pool get_va r o t)
  unfolding from_pool with_frame
  from_pool-Settled r none t b = b
  from_pool-Settled r (some f) t b =
      Ensures-bind Settled (get_avail_buf (r.writes t.ring) t.vq t.buf) _ λ (s, buf, vq).
        on_status-Settled r (aligned f) s
          (record t { ring = r.writes t.ring; vq = vq; buf = buf; got = aligned f ∷ t.got })
          (λ x. ground (arith, b x))

  tx_loop-Settled :
      (rounds : ℕ → Round) (left i : ℕ) (t : Tx)
      → Balanced [] t
      → Ensures Settled (tx_loop get_va rounds left i t)
  unfolding tx_loop tx_round
  tx_loop-Settled rounds zero i t b = b
  tx_loop-Settled rounds (suc left) i t b =
      settle (tx_round get_va (rounds i) t) (from_pool-Settled (rounds i) (rounds i).frame t b)
        (λ t' b'. tx_loop-Settled rounds left (i + 1) t' b')
    where
      settle :
          (o : Outcome After)
          → Ensures Settled o
          → ((t' : Tx) → Balanced [] t' → Ensures Settled (tx_loop get_va rounds left (i + 1) t'))
          → Ensures Settled (o >>= go_on (tx_loop get_va rounds left (i + 1)))
      settle (ok (next t')) h again = again t' h
      settle (ok (flush t')) h again = h
      settle (ok (leave e t')) h again = h
      settle (panic p) h again = tt

  -- Each buffer that the pool hands out to a call of `virtio_net_flush_tx` that returns, on whichever
  -- path, is either passed to the router or given back, once.
  pub virtio_net_flush_tx-Balanced :
      (driver_ok : Bool) (tx_burst : ℕ) (fec : Option Pktq) (allocated : Bool) (rounds : ℕ → Round)
      (ring : Ring) (vq : Vqueue)
      → Ensures Shared (virtio_net_flush_tx get_va driver_ok tx_burst fec allocated rounds ring vq)
  unfolding virtio_net_flush_tx
  virtio_net_flush_tx-Balanced driver_ok tx_burst fec allocated rounds ring vq =
      elim (Bool-cases (not driver_ok)) [
        | inl e ↦ rw e (λ x. omega arith)
        | inr e ↦ rw e (
            Ensures-bind Shared (vqueue_num_of_avail_buf ring vq) _ λ data_avail.
              elim (Bool-cases (data_avail == 0)) [
                | inl n ↦ rw n (λ x. omega arith)
                | inr n ↦ rw n (
                    Ensures-bind Shared (router_in_burst_size fec) _ λ ref_burst.
                      elim (Bool-cases (ltb ref_burst 128)) [
                        | inl few ↦ rw few (λ x. omega arith)
                        | inr few ↦ rw few (elim (Bool-cases allocated) [
                          | inl m ↦ rw m (
                              ended
                                (tx_loop get_va rounds
                                  (max (min (min tx_burst ref_burst) data_avail) 1) 0
                                  (started ring vq))
                                (tx_loop-Settled rounds
                                  (max (min (min tx_burst ref_burst) data_avail) 1) 0
                                  (started ring vq) (λ x. omega arith)))
                          | inr m ↦ rw m (λ x. omega arith)
                        ])
                      ])
              ])
      ]
