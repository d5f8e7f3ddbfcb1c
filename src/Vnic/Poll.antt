-- ===== src/Vnic/Poll.antt =====
-- The polling of the virtual card, `vnic_poll` with `vnic_xmit_handler` (virtio-nic/vnic/src/vnic.c):
-- both directions of the data path in turn, and the end of the polling, at which NAPI and rings must
-- agree on who wakes up whom.
use trusted_gateway.Prelude.{
  ℕ, zero, suc, ◌+◌, Bool, true, false, ◌||◌, not, List, [], ◌∷◌, ◌++◌, Option, none, some, Outcome,
  ok, panic, null_pointer, ◌>>=◌, if◌then◌else◌, ◌==◌, ltb,
}
use trusted_gateway.Vqueue.State.{Ring, Vqueue}
use trusted_gateway.Vqueue.Used.{vqueue_num_of_avail_buf_and_notify}
use trusted_gateway.Pktq.Ops.{Pktq, contig_bufs}
use trusted_gateway.Napi.Ops.{Napi, napi_schedule, napi_complete_done}
use trusted_gateway.Router.Egress.{Ifnet, Xmit, sent, failed, burst, router_pktq_tx}
use trusted_gateway.Iovec.Ops.{Memory}
use trusted_gateway.Vnic.Frames.{Frame}
use trusted_gateway.Vnic.FlushTx.{Round, Flush, count, napi_retry, virtio_net_flush_tx}
use trusted_gateway.Vnic.Receive.{
  Packet, Meanwhile, Received, processed, no_avail, virtio_net_receive,
}

-- The card: both queues with their rings, its NAPI, its interface with the egress queue, the normal
-- world's memory; the packets passed to the router and the kicks of the normal world so far.
pub record Card : Type 0 where
  pub tx_ring : Ring
  pub rx_ring : Ring
  pub tx_vq : Vqueue
  pub rx_vq : Vqueue
  pub napi : Napi
  pub net_device : Ifnet
  pub mem : Memory
  pub passed : List Frame
  pub kicks : ℕ

-- What the outside contributes to one round of the loop: to the two directions, as `Round` and
-- `Meanwhile` have it, with the FEC's egress queue and `malloc`; the packets behind the entries of
-- the egress queue, and those that are enqueued meanwhile; what others do to the NAPI; and the
-- writes to the rings up to the last looks at them, with what the second reads of the indices give.
pub record PollRound : Type 0 where
  pub rounds : ℕ → Round
  pub fec : Option Pktq
  pub allocated : Bool
  pub meanwhile : ℕ → Meanwhile
  pub packet_of : ℕ → Option Packet
  pub added : List ℕ
  pub others : Napi → Napi
  pub tx_writes : Ring → Ring
  pub rx_writes : Ring → Ring
  pub tx_later : ℕ
  pub rx_later : ℕ

-- VRING_USED_F_NO_NOTIFY, at the start of the polling.
abbrev pub quiet : Ring → Ring
quiet ring = record ring { used_no_notify = true }

abbrev pub masked : Card → Card
masked v = record v { tx_ring = quiet v.tx_ring; rx_ring = quiet v.rx_ring }

abbrev pub one_if : Bool → ℕ
one_if true = 1
one_if false = 0

abbrev pub packets : (ℕ → Option Packet) → List ℕ → List (Option Packet)
packets packet_of [] = []
packets packet_of (p ∷ ps) = packet_of p ∷ packets packet_of ps

-- The handler's answer as the router reads it: each negative one is an error.
abbrev pub as_xmit : Received → Xmit
as_xmit (processed n) = sent n
as_xmit r = failed

-- `ret > 0`, and `pkts += ret`.
abbrev pub flush_count : Flush → ℕ
flush_count (count n) = n
flush_count e = 0

-- Whether `virtio_net_flush_tx` and `router_pktq_tx` have answered an event.
abbrev pub flush_event : Flush → Bool
flush_event (count n) = ltb 0 n
flush_event napi_retry = true
flush_event e = false

abbrev pub tx_event : Received → Bool
tx_event (processed n) = ltb 0 n
tx_event Received.napi_retry = true
tx_event r = false

abbrev pub is_no_avail : Received → Bool
is_no_avail no_avail = true
is_no_avail r = false

-- The last looks, under a NAPI that is complete: at the transmit ring, and at the receive ring if
-- there was no buffer in it for a packet.
unfoldable pub look_at_rx : PollRound → Received → Card → Card
unfolding vqueue_num_of_avail_buf_and_notify napi_schedule
look_at_rx r ret v =
    let (n, ring) = vqueue_num_of_avail_buf_and_notify (r.rx_writes v.rx_ring) r.rx_later v.rx_vq in
    let v' = record v { rx_ring = ring } in
    if is_no_avail ret
    then (if n == 0 then v' else record v' { napi = napi_schedule v.napi })
    else v

unfoldable pub last_looks : PollRound → Received → Card → Card
unfolding look_at_rx
last_looks r ret v =
    let (n, ring) = vqueue_num_of_avail_buf_and_notify (r.tx_writes v.tx_ring) r.tx_later v.tx_vq in
    let v' = record v { tx_ring = ring } in
    if n == 0 then look_at_rx r ret v' else record v' { napi = napi_schedule v.napi }

-- The end of a polling without events.
unfoldable pub complete : PollRound → Received → Card → Card
unfolding last_looks napi_complete_done
complete r ret v =
    let (done, napi) = napi_complete_done (r.others v.napi) in
    let v' = record v { napi = napi } in if done then last_looks r ret v' else v'

module _ (get_va : ℕ → ℕ) (driver_ok : Bool) (tx_burst rx_burst : ℕ) where
  -- The code looks at the address of the transmit queue, not at that of the receive queue.
  unfoldable pub vnic_xmit_handler :
      PollRound → List (Option Packet) → Card → Outcome (Received × Card)
  unfolding virtio_net_receive
  vnic_xmit_handler r pkts v =
      if v.tx_vq.vring_addr == 0
      then ok (processed 0, v)
      else (virtio_net_receive get_va rx_burst driver_ok r.meanwhile pkts v.rx_ring v.rx_vq v.mem
          >>= λ (ret, (kicked, rx)). ok (
            ret,
            record v {
              rx_ring = rx.ring;
              rx_vq = rx.vq;
              mem = rx.mem;
              kicks = v.kicks + one_if kicked;
            },
          ))

  -- `router_pktq_tx` of the card's interface, with the card's handler, which is not called on an
  -- empty queue. The interface is not external, so that it does not matter whether the queue is
  -- stopped.
  unfoldable pub transmit : PollRound → Card → Outcome (Received × Card)
  unfolding vnic_xmit_handler router_pktq_tx
  transmit r v =
      let q = v.net_device.queue in
      if contig_bufs q == 0
      then ok (processed 0, v)
      else (vnic_xmit_handler r (packets r.packet_of (burst q)) v >>= λ (ret, v').
          router_pktq_tx (λ b. as_xmit ret) r.added v.net_device >>= λ (x, q').
          ok (ret, record v' { net_device = record v.net_device { queue = q' } }))

  unfoldable pub flush_tx : PollRound → Card → Outcome (Flush × Card)
  unfolding virtio_net_flush_tx
  flush_tx r v =
      virtio_net_flush_tx get_va driver_ok tx_burst r.fec r.allocated r.rounds v.tx_ring v.tx_vq
      >>= λ f. ok (
        f.answer,
        record v {
          tx_ring = f.tx.ring;
          tx_vq = f.tx.vq;
          passed = v.passed ++ f.passed;
          kicks = v.kicks + one_if f.kicked;
        },
      )

  -- One round: the packets it adds, whether it was the last for want of events, and the card.
  unfoldable pub poll_round : PollRound → Card → Outcome (ℕ × (Bool × Card))
  unfolding flush_tx transmit complete
  poll_round r v = flush_tx r v >>= λ (a, v'). transmit r v' >>= λ (ret, v''). ok (
    flush_count a,
    (if flush_event a || tx_event ret then (false, v'') else (true, complete r ret v'')),
  )

  -- The loop, for the first `fuel` of its rounds, numbered from `i`; `none` if it goes on. The answer
  -- is `pkts`.
  unfoldable pub poll_loop : ℕ → (ℕ → PollRound) → ℕ → ℕ → ℕ → Card → Outcome (Option (ℕ × Card))
  unfolding poll_round
  poll_loop budget rounds zero i pkts v = ok none
  poll_loop budget rounds (suc fuel) i pkts v = poll_round (rounds i) v >>= λ (n, (last, v')).
      let rest = poll_loop budget rounds fuel (i + 1) (pkts + n) v' in
      if last || not (ltb (pkts + n) budget) then ok (some (pkts + n, v')) else rest

  -- Both used rings are written to first: on a queue that is not set up, `vring.used` is NULL.
  unfoldable pub vnic_poll : ℕ → (ℕ → PollRound) → ℕ → Card → Outcome (Option (ℕ × Card))
  unfolding poll_loop
  vnic_poll budget rounds fuel v =
      if (v.rx_vq.vring_addr == 0) || (v.tx_vq.vring_addr == 0)
      then panic null_pointer
      else poll_loop budget rounds fuel 0 0 (masked v)
