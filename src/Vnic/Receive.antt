-- ===== src/Vnic/Receive.antt =====
-- `virtio_net_receive`: from the router to the receive ring of the normal world.
use trusted_gateway.Prelude.{
  ℕ, ◌+◌, Bool, false, ◌&&◌, ◌||◌, not, List, [], ◌∷◌, ◌++◌, Option, none, some, Outcome, ok, ◌>>=◌,
  if◌then◌else◌, ◌==◌, ◌!=◌, ltb, leb, take,
}
use trusted_gateway.Vqueue.State.{Ring, Vqueue, Iov, Iovs, Buf, Status, no_error, u32}
use trusted_gateway.Vqueue.Avail.{vqueue_num_of_avail_buf}
use trusted_gateway.Vqueue.Used.{vqueue_add_buf}
use trusted_gateway.Vqueue.Iovs.{vqueue_map_iovs, vqueue_unmap_iovs}
use trusted_gateway.Ethbuf.Data.{Ethbuf, bstgw_ethbuf_linearize}
use trusted_gateway.Iovec.Ops.{Memory, membuf_to_kern_iovec, membuf_to_kern_iovec_skip_begin}
use trusted_gateway.Vnic.Frames.{Frame, hdr_len, with_room, get_avail_buf}
use trusted_gateway.Vnic.FlushTx.{first_len}

-- An entry of the array: a buffer with the rest of its chain, or NULL.
pub record Packet : Type 0 where
  pub frame : Frame
  pub rest : List Ethbuf

-- What the normal world has written, to the ring and to its memory, since the last round.
pub record Meanwhile : Type 0 where
  pub writes : Ring → Ring
  pub stores : Memory → Memory

-- The loop's variables, the normal world's memory, and the buffers given back to the pool.
pub record Rx : Type 0 where
  pub ring : Ring
  pub vq : Vqueue
  pub buf : Buf
  pub mem : Memory
  pub processed : ℕ
  pub enqueued : ℕ
  pub freed : List Frame

-- A round ends with another one, or by a `break`.
pub data RxAfter : Type 0 where
  next stop : Rx → RxAfter

-- `struct virtio_net_hdr_v1` with `num_buffers` 1.
abbrev pub vnet_hdr : List ℕ
vnet_hdr = 0 ∷ 0 ∷ 0 ∷ 0 ∷ 0 ∷ 0 ∷ 0 ∷ 0 ∷ 0 ∷ 0 ∷ 1 ∷ 0 ∷ []

-- `bstgw_ethpool_buf_free` of a packet that counts as processed.
abbrev pub consumed : Frame → Rx → Rx
consumed f rx = record rx { processed = rx.processed + 1; freed = rx.freed ++ (f ∷ []) }

-- `vqueue_add_buf`, whose answer is not looked at.
abbrev pub give_back : ℕ → Rx → Rx
give_back n rx = record rx { ring = (vqueue_add_buf rx.ring rx.vq rx.buf n).1 }

abbrev pub with_list : Iovs → Rx → Rx
with_list l rx = record rx { buf = record rx.buf { out_iovs = l } }

-- The packet is on the other side's ring.
unfoldable pub pushed : ℕ → Frame → Rx → RxAfter
pushed rx_burst f rx =
    let rx' =
      consumed f
        (record (give_back (u32 (hdr_len + f.eb.data_len)) rx) { enqueued = rx.enqueued + 1 }) in
    if leb rx_burst rx'.processed then stop rx' else next rx'

-- Both copies into the first entry, and whether they copied all.
unfoldable pub put_packet : Memory → List Iov → Ethbuf → Outcome (Bool × Memory)
put_packet mem vs eb = membuf_to_kern_iovec mem (take 1 vs) vnet_hdr 0 hdr_len >>= λ (n, mem').
    if n != hdr_len
    then ok (false, mem')
    else (membuf_to_kern_iovec_skip_begin mem' (take 1 vs) eb.buf eb.data_off eb.data_len hdr_len
        >>= λ (m, mem''). ok (m == eb.data_len, mem''))

-- From the copies on, with the mapped list.
unfoldable pub rx_copies : ℕ → Iovs → Frame → Rx → Outcome RxAfter
unfolding put_packet pushed
rx_copies rx_burst l f rx = put_packet rx.mem l.iovs f.eb >>= λ (fine, mem).
    vqueue_unmap_iovs l >>= λ l'.
    let rx' = with_list l' (record rx { mem = mem }) in
    ok (if fine then pushed rx_burst f rx' else stop (give_back 0 rx'))

abbrev pub rx_go_on : (Rx → Outcome Rx) → RxAfter → Outcome Rx
rx_go_on again (next rx) = again rx
rx_go_on again (stop rx) = ok rx

module _ (get_va : ℕ → ℕ) (rx_burst : ℕ) where
  -- From the checks of the buffer on that was taken off the ring.
  unfoldable pub rx_with_buf : Frame → Rx → Outcome RxAfter
  unfolding rx_copies
  rx_with_buf f rx =
      if ltb rx.buf.out_iovs.used 1
      then ok (stop (give_back 0 rx))
      else (if ltb (first_len rx.buf.out_iovs.iovs) (hdr_len + f.eb.data_len)
          then ok (stop (give_back 0 rx))
          else (vqueue_map_iovs get_va rx.buf.out_iovs >>= λ (l, done).
              if done
              then rx_copies rx_burst l f (with_list l rx)
              else ok (stop (give_back 0 (with_list l rx)))))

  unfoldable pub rx_on_status : Status → Frame → Rx → Outcome RxAfter
  unfolding rx_with_buf
  rx_on_status no_error f rx = rx_with_buf f rx
  rx_on_status s f rx = ok (stop rx)

  -- A packet that is linear and not empty. `meanwhile` is what the normal world writes before the
  -- buffer is taken off the ring.
  unfoldable pub rx_frame : Meanwhile → Frame → Rx → Outcome RxAfter
  unfolding rx_on_status
  rx_frame meanwhile f rx = get_avail_buf (meanwhile.writes rx.ring) rx.vq rx.buf >>= λ (s, b, vq).
      rx_on_status s f (record rx {
        ring = meanwhile.writes rx.ring;
        vq = vq;
        buf = b;
        mem = meanwhile.stores rx.mem;
      })

  unfoldable pub rx_round : Meanwhile → Option Packet → Rx → Outcome RxAfter
  unfolding rx_frame
  rx_round meanwhile none rx = ok (next (record rx { processed = rx.processed + 1 }))
  rx_round meanwhile (some p) rx =
      bstgw_ethbuf_linearize p.frame.eb p.rest >>= λ (linear, (eb, rest)).
      let f = record p.frame { eb = eb } in
      if not linear || (eb.data_len == 0)
      then ok (next (consumed f rx))
      else rx_frame meanwhile f rx

  unfoldable pub rx_loop : (ℕ → Meanwhile) → List (Option Packet) → ℕ → Rx → Outcome Rx
  unfolding rx_round
  rx_loop meanwhile [] i rx = ok rx
  rx_loop meanwhile (p ∷ ps) i rx =
      rx_round (meanwhile i) p rx >>= rx_go_on (rx_loop meanwhile ps (i + 1))

-- What a call answers: a number of packets, -1, VIRTIO_NO_AVAIL or VIRTIO_NAPI_RETRY.
pub data Received : Type 0 where
  processed : ℕ → Received
  not_ready no_avail napi_retry : Received

abbrev pub rx_started : Ring → Vqueue → Memory → Rx
rx_started ring vq mem = record {
  ring = ring;
  vq = vq;
  buf = record { head = 0; in_iovs = with_room 0; out_iovs = with_room 1 };
  mem = mem;
  processed = 0;
  enqueued = 0;
  freed = [];
}

-- `virtio_net_can_receive`
unfoldable pub virtio_net_can_receive : Bool → Vqueue → Bool
virtio_net_can_receive driver_ok vq = not (vq.vring_addr == 0) && driver_ok

-- The answer, whether the normal world is kicked, and the variables at the end. `driver_ok` is the
-- device's, `rx_burst` the card's.
unfoldable pub virtio_net_receive :
    (ℕ → ℕ)
    → ℕ
    → Bool
    → (ℕ → Meanwhile)
    → List (Option Packet)
    → Ring
    → Vqueue
    → Memory
    → Outcome (Received × (Bool × Rx))
unfolding virtio_net_can_receive rx_loop vqueue_num_of_avail_buf
virtio_net_receive get_va rx_burst driver_ok meanwhile ethbufs ring vq mem =
    let rx = rx_started ring vq mem in
    if not (virtio_net_can_receive driver_ok vq)
    then ok (not_ready, (false, rx))
    else (vqueue_num_of_avail_buf ring vq >>= λ space.
        if space == 0
        then ok (no_avail, (false, rx))
        else (if ltb space 128
            then ok (napi_retry, (false, rx))
            else (rx_loop get_va rx_burst meanwhile ethbufs 0 rx >>= λ rx'.
                ok (processed rx'.processed, (ltb 0 rx'.enqueued, rx')))))
