-- ===== src/Vnic/Spins.antt =====
-- When a polling of the virtual card does not end.
use trusted_gateway.Prelude.{
  ℕ, zero, suc, ◌+◌, ◌-◌, ◌<◌, ◌≡◌, ◌≢◌, refl, true, false, ◌++◌, [], none, some, ok, arith, ◌==◌,
  ◌||◌, ltb,
}
use trusted_gateway.Vqueue.Avail.{avail_count, vqueue_num_of_avail_buf}
use trusted_gateway.Pktq.Ops.{Pktq, contig_bufs}
use trusted_gateway.Vnic.FlushTx.{napi_retry, router_in_burst_size, virtio_net_flush_tx}
use trusted_gateway.Vnic.Receive.{processed}
use trusted_gateway.Vnic.Poll.{
  Card, PollRound, masked, transmit, flush_tx, poll_round, poll_loop, vnic_poll,
}

-- No room for half a transmit ring in the FEC's egress queue.
abbrev pub Crowded : PollRound → Type 0
Crowded r = (q : Pktq) × (r.fec ≡ some q) × (q.capacity - q.count < 128)

module _ (get_va : ℕ → ℕ) (tx_burst rx_burst : ℕ) where
  abbrev stays : Card → Card
  stays v = record v { passed = v.passed ++ []; kicks = v.kicks + 0 }

  flush_tx_lem :
      (r : PollRound) (v : Card)
      → Crowded r
      → v.tx_vq.vring_addr ≢ 0
      → (avail_count v.tx_ring v.tx_vq == 0) ≡ false
      → flush_tx get_va true tx_burst rx_burst r v ≡ ok (napi_retry, stays v)
  unfolding flush_tx virtio_net_flush_tx vqueue_num_of_avail_buf router_in_burst_size
  flush_tx_lem r v (q, is_fec, crowded) up some_data = rw (set_up, some_data, is_fec, few) refl
    where
      set_up : (v.tx_vq.vring_addr == 0) ≡ false
      set_up = ground (arith, up)

      few : ltb (q.capacity - q.count) 128 ≡ true
      few = ground (arith, crowded)

  transmit_lem :
      (r : PollRound) (v : Card)
      → (contig_bufs v.net_device.queue == 0) ≡ true
      → transmit get_va true tx_burst rx_burst r v ≡ ok (processed 0, v)
  unfolding transmit
  transmit_lem r v empty = rw empty refl

  poll_loop-Spins :
      (budget : ℕ) (rounds : ℕ → PollRound) (fuel i : ℕ) (v : Card)
      → ((i : ℕ) → Crowded (rounds i))
      → 0 < budget
      → v.tx_vq.vring_addr ≢ 0
      → (avail_count v.tx_ring v.tx_vq == 0) ≡ false
      → (contig_bufs v.net_device.queue == 0) ≡ true
      → poll_loop get_va true tx_burst rx_burst budget rounds fuel i 0 v ≡ ok none
  unfolding poll_loop poll_round
  poll_loop-Spins budget rounds zero i v crowded b up waiting empty = refl
  poll_loop-Spins budget rounds (suc fuel) i v crowded b up waiting empty =
      rw
        (
          flush_tx_lem (rounds i) v (crowded i) up waiting,
          transmit_lem (rounds i) (stays v) empty,
          more,
        )
        (poll_loop-Spins budget rounds fuel (i + 1) (stays v) crowded b up waiting empty)
    where
      more : ltb 0 budget ≡ true
      more = ground (arith, b)

  -- While both queues are set up, the normal world has packets in its ring and the FEC's egress queue has no room for half of
  -- it, a polling of the virtual card, with nothing to transmit, does not end, however many rounds it
  -- makes: an answer of VIRTIO_NAPI_RETRY counts as an event, but not against the budget.
  pub vnic_poll-Spins :
      (budget : ℕ) (rounds : ℕ → PollRound) (fuel : ℕ) (v : Card)
      → ((i : ℕ) → Crowded (rounds i))
      → 0 < budget
      → v.rx_vq.vring_addr ≢ 0
      → v.tx_vq.vring_addr ≢ 0
      → (avail_count v.tx_ring v.tx_vq == 0) ≡ false
      → (contig_bufs v.net_device.queue == 0) ≡ true
      → vnic_poll get_va true tx_burst rx_burst budget rounds fuel v ≡ ok none
  unfolding vnic_poll
  vnic_poll-Spins budget rounds fuel v crowded b rx_up up waiting empty =
      rw set_up (poll_loop-Spins budget rounds fuel 0 (masked v) crowded b up waiting empty)
    where
      set_up : ((v.rx_vq.vring_addr == 0) || (v.tx_vq.vring_addr == 0)) ≡ false
      set_up = ground (arith, rx_up, up)
