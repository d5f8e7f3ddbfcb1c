-- ===== src/Vnic/FlushTx.antt =====
-- `virtio_net_flush_tx`: from the transmit ring of the normal world to the router.
use trusted_gateway.Prelude.{
  ℕ, zero, suc, ◌+◌, ◌-◌, Bool, false, ◌||◌, not, List, [], ◌∷◌, ◌++◌, Option, none, some, Outcome,
  ok, panic, bad_argument, ◌>>=◌, if◌then◌else◌, ◌==◌, ◌!=◌, ltb, min, max, get_or, replicate,
}
use trusted_gateway.Vqueue.State.{
  Ring, Vqueue, Iov, Iovs, Buf, Status, no_error, not_enough_buffer, u32,
}
use trusted_gateway.Vqueue.Avail.{vqueue_num_of_avail_buf}
use trusted_gateway.Vqueue.Used.{vqueue_add_buf}
use trusted_gateway.Vqueue.Iovs.{vqueue_map_iovs, vqueue_unmap_iovs}
use trusted_gateway.Pktq.Ops.{Pktq}
use trusted_gateway.Iovec.Ops.{Memory, kern_iovec_to_membuf, kern_iovec_to_membuf_skip_begin}
use trusted_gateway.Vnic.Frames.{Frame, hdr_len, with_room, get_avail_buf}

-- What the outside contributes to one round of the send loop: the buffer that the pool hands out,
-- what the normal world has written to the ring since the last round, and its memory at the copy of
-- the header and at that of the data.
pub record Round : Type 0 where
  pub frame : Option Frame
  pub writes : Ring → Ring
  pub header_mem : Memory
  pub data_mem : Memory

-- The loop's variables: `frames` has the first `to_be_sent` entries of the array. `got` and `freed`
-- are the buffers that the pool has handed out and was given back, which the code does not keep.
pub record Tx : Type 0 where
  pub ring : Ring
  pub vq : Vqueue
  pub buf : Buf
  pub frames : List Frame
  pub num_packets : ℕ
  pub got : List Frame
  pub freed : List Frame

-- What the function answers: a number of packets, VIRTIO_NO_AVAIL, VIRTIO_NAPI_RETRY, an error of
-- the queue, or the error codes of its own. A failed mapping answers an unassigned variable.
pub data Flush : Type 0 where
  count : ℕ → Flush
  queue_error : Status → Flush
  no_avail napi_retry no_memory invalid_args unmapped generic : Flush

-- How a round ends: with another one, by a `break`, or by a `return`.
pub data After : Type 0 where
  next flush : Tx → After
  leave : Flush → Tx → After

abbrev pub free_frame : Frame → Tx → Tx
free_frame f t = record t { freed = f ∷ t.freed }

-- An error drops the packets of the earlier rounds, too.
abbrev pub free_all : Tx → Tx
free_all t = record t { frames = []; freed = t.frames ++ t.freed }

-- The label `drop`, where each round but those with an error ends.
unfoldable pub hand_back : Iovs → ℕ → Tx → Outcome After
hand_back l total t = vqueue_unmap_iovs l >>= λ l'.
    let t' = record t {
      buf = record t.buf { in_iovs = l' };
      ring = (vqueue_add_buf t.ring t.vq t.buf (u32 (hdr_len + total))).1;
      num_packets = t.num_packets + 1;
    } in
    ok (next t')

-- The label `tx_error`.
unfoldable pub tx_error : Iovs → Flush → Tx → Outcome After
tx_error l e t = vqueue_unmap_iovs l >>= λ l'. ok (leave e (free_all t))

-- The copy of the data. The header is put in `hdr` before.
unfoldable pub copy_data : Memory → Iovs → ℕ → Frame → Tx → Outcome After
unfolding hand_back tx_error
copy_data mem l total f t =
    kern_iovec_to_membuf_skip_begin mem l.iovs f.eb.buf f.eb.data_off total hdr_len >>= λ (n, buf').
    let full = record f { eb = record f.eb { data_len = total; buf = buf' } } in
    if n != total
    then tx_error l generic (free_frame full t)
    else hand_back l total (record t { frames = t.frames ++ (full ∷ []) })

-- The header's `flags` and `gso_type` are its first two bytes.
unfoldable pub copy_header : Round → Iovs → ℕ → Frame → Tx → Outcome After
unfolding copy_data tx_error
copy_header r l total f t =
    kern_iovec_to_membuf r.header_mem l.iovs (replicate hdr_len 0) 0 hdr_len >>= λ (n, hdr).
    if n != hdr_len
    then tx_error l invalid_args (free_frame f t)
    else (if (get_or hdr 0 0 != 0) || (get_or hdr 1 0 != 0)
        then tx_error l invalid_args (free_frame f t)
        else copy_data r.data_mem l total f t)

-- `iovs[0].len`, of a list that is not empty.
abbrev pub first_len : List Iov → ℕ
first_len [] = 0
first_len (v ∷ vs) = v.len

-- The length of the packet, and whether it is dropped for it.
abbrev pub packet_len : Iovs → ℕ
packet_len l = u32 (l.len + 0x100000000 - hdr_len)

unfoldable pub bad_len : Iovs → Bool
bad_len l =
    ltb (first_len l.iovs) hdr_len
    || ((packet_len l == 0) || (ltb (packet_len l) 42 || ltb 2046 (packet_len l)))

-- `router_in_burst_size` for the virtual card: the room in the FEC's egress queue. Without that
-- interface the function panics.
unfoldable pub router_in_burst_size : Option Pktq → Outcome ℕ
router_in_burst_size none = panic bad_argument
router_in_burst_size (some q) = ok (q.capacity - q.count)

abbrev pub aligned : Frame → Frame
aligned f = record f { eb = record f.eb { data_off = 2 } }

-- What a call ends in: its answer, the packets that the router's handler is given, whether the
-- normal world is kicked.
pub record Flushed : Type 0 where
  pub answer : Flush
  pub passed : List Frame
  pub kicked : Bool
  pub tx : Tx

abbrev pub finish : After → Flushed
finish (next t) = record {
  answer = count t.num_packets;
  passed = t.frames;
  kicked = ltb 0 t.num_packets;
  tx = t;
}
finish (flush t) = record {
  answer = count t.num_packets;
  passed = t.frames;
  kicked = ltb 0 t.num_packets;
  tx = t;
}
finish (leave e t) = record { answer = e; passed = []; kicked = false; tx = t }

-- The variables that the loop starts with.
abbrev pub started : Ring → Vqueue → Tx
started ring vq = record {
  ring = ring;
  vq = vq;
  buf = record { head = 0; in_iovs = with_room 4; out_iovs = with_room 0 };
  frames = [];
  num_packets = 0;
  got = [];
  freed = [];
}

-- A call that ends before the loop.
abbrev pub early : Flush → Ring → Vqueue → Flushed
early e ring vq = record { answer = e; passed = []; kicked = false; tx = started ring vq }

abbrev pub go_on : (Tx → Outcome After) → After → Outcome After
go_on again (next t) = again t
go_on again (flush t) = ok (flush t)
go_on again (leave e t) = ok (leave e t)

module _ (get_va : ℕ → ℕ) where
  -- The round with the buffer that was taken off the ring.
  unfoldable pub with_buf : Round → Frame → Tx → Outcome After
  unfolding hand_back copy_header bad_len
  with_buf r f t =
      if ltb t.buf.in_iovs.used 1
      then ok (leave invalid_args (free_all (free_frame f t)))
      else (vqueue_map_iovs get_va t.buf.in_iovs >>= λ (l, done).
          if done
          then (if bad_len l
              then hand_back l (packet_len l) (free_frame f t)
              else copy_header r l (packet_len l) f t)
          else ok (leave unmapped (free_all (free_frame f t))))

  unfoldable pub on_status : Round → Frame → Status → Tx → Outcome After
  unfolding with_buf
  on_status r f no_error t = with_buf r f t
  on_status r f not_enough_buffer t = ok (flush (free_frame f t))
  on_status r f s t = ok (leave (queue_error s) (free_all (free_frame f t)))

  unfoldable pub with_frame : Round → Frame → Tx → Outcome After
  unfolding on_status
  with_frame r f t = get_avail_buf (r.writes t.ring) t.vq t.buf >>= λ (s, b, vq).
      on_status r f s (record t { ring = r.writes t.ring; vq = vq; buf = b; got = f ∷ t.got })

  unfoldable pub from_pool : Round → Option Frame → Tx → Outcome After
  unfolding with_frame
  from_pool r none t = ok (flush t)
  from_pool r (some f) t = with_frame r (aligned f) t

  unfoldable pub tx_round : Round → Tx → Outcome After
  unfolding from_pool
  tx_round r t = from_pool r r.frame t

  -- The loop, with the number of packets that are left of the burst: the code counts up to it, and
  -- makes at least one round. `i` numbers the rounds.
  unfoldable pub tx_loop : (ℕ → Round) → ℕ → ℕ → Tx → Outcome After
  unfolding tx_round
  tx_loop rounds zero i t = ok (flush t)
  tx_loop rounds (suc left) i t = tx_round (rounds i) t >>= go_on (tx_loop rounds left (i + 1))

  -- `virtio_net_flush_tx` with the device's DRIVER_OK, its `tx_burst`, the egress queue of the FEC's
  -- interface if there is one, and whether `malloc` has the array of packets.
  unfoldable pub virtio_net_flush_tx :
      Bool → ℕ → Option Pktq → Bool → (ℕ → Round) → Ring → Vqueue → Outcome Flushed
  unfolding tx_loop vqueue_num_of_avail_buf router_in_burst_size
  virtio_net_flush_tx driver_ok tx_burst fec allocated rounds ring vq =
      if not driver_ok
      then ok (early (count 0) ring vq)
      else (vqueue_num_of_avail_buf ring vq >>= λ data_avail.
          if data_avail == 0
          then ok (early no_avail ring vq)
          else (router_in_burst_size fec >>= λ ref_burst.
              if ltb ref_burst 128
              then ok (early napi_retry ring vq)
              else (if allocated
                  then (tx_loop rounds (max (min (min tx_burst ref_burst) data_avail) 1) 0
                        (started ring vq)
                      >>= λ a. ok (finish a))
                  else ok (early no_memory ring vq))))
