-- ===== src/Vnic/PollTests.antt =====
-- Two pollings of a card with an empty egress queue: one ends without packets, one goes on, since
-- there is a packet and the FEC's queue is full.
use trusted_gateway.Prelude.{ℕ, ◌≤◌, ◌≡◌, ◌⊎◌, refl, true, false, [], none, some, ok, arith}
use trusted_gateway.Vqueue.State.{Ring, Vqueue}
use trusted_gateway.Vqueue.Avail.{vqueue_num_of_avail_buf}
use trusted_gateway.Pktq.Ops.{Pktq, contig_bufs}
use trusted_gateway.Napi.Ops.{Napi}
use trusted_gateway.Vnic.Poll.{Card, PollRound, vnic_poll}
use trusted_gateway.Vnic.Complete.{Waits}
use trusted_gateway.Vnic.Asleep.{Ended, vnic_poll-Waits}
use trusted_gateway.Vnic.Spins.{vnic_poll-Spins}

-- A ring with the given index of available buffers, and a queue at its start.
abbrev ring_at : ℕ → Ring
ring_at n = record {
  desc = λ i. record {
    addr = 0;
    addr_again = 0;
    len = 0;
    len_again = 0;
    f_write = false;
    f_next = false;
    next = 0;
  };
  avail_idx = n;
  avail_idx_again = n;
  avail_ring = λ i. 0;
  used_no_notify = false;
  used_idx = 0;
  used_ring = λ i. record { id = 0; len = 0 };
}

abbrev queue_of : ℕ → Vqueue
queue_of i = record {
  id = i;
  num = 256;
  num_default = 256;
  desc_ptr = 1;
  avail_ptr = 2;
  used_ptr = 3;
  vring_addr = 1;
  vring_sz = 9000;
  vring_align = 4096;
  last_avail_idx = 0;
}

abbrev polled : Napi
polled = record {
  sched = true;
  missed = false;
  disable = false;
  w_active = true;
  is_waiting = false;
  do_notify = false;
}

abbrev egress_with : ℕ → Pktq
egress_with n = record {
  stopped = false;
  next_read = 0;
  next_write = 0;
  count = n;
  capacity = 512;
  pkt = [];
}

-- The card with `n` packets in the transmit ring.
abbrev card : ℕ → Card
card n = record {
  tx_ring = ring_at n;
  rx_ring = ring_at 0;
  tx_vq = queue_of 1;
  rx_vq = queue_of 0;
  napi = polled;
  net_device = record {
    ifnet_idx = 1;
    is_external = false;
    queue = egress_with 0;
    freed = [];
    notified = 0;
  };
  mem = λ a. 0;
  passed = [];
  kicks = 0;
}

-- A round with the FEC's queue full, and nothing else going on.
abbrev idle : PollRound
idle = record {
  rounds =
      λ i. record { frame = none; writes = λ ring. ring; header_mem = λ a. 0; data_mem = λ a. 0 };
  fec = some (egress_with 512);
  allocated = true;
  meanwhile = λ i. record { writes = λ ring. ring; stores = λ mem. mem };
  packet_of = λ p. none;
  added = [];
  others = λ n. n;
  tx_writes = λ ring. ring;
  rx_writes = λ ring. ring;
  tx_later = 0;
  rx_later = 0;
}

abbrev woken_by : Card
woken_by = record (card 0) {
  napi = record polled { sched = false };
  rx_ring = record (ring_at 0) { used_no_notify = true };
}

vnic_poll-Waits_example :
    (64 ≤ 0) ⊎ ((e : Ended (λ a. a) true 64 64 (λ i. idle) polled woken_by) × Waits e.ret woken_by)
unfolding vnic_poll vqueue_num_of_avail_buf contig_bufs
vnic_poll-Waits_example =
    vnic_poll-Waits (λ a. a) true 64 64 64 (λ i. idle) 1 (card 0) 0 woken_by (λ i. refl)
      (λ i. omega arith) (λ i. omega arith) (omega arith) (omega arith) refl refl

vnic_poll-Spins_example : vnic_poll (λ a. a) true 64 64 64 (λ i. idle) 1000000 (card 3) ≡ ok none
unfolding contig_bufs
vnic_poll-Spins_example =
    vnic_poll-Spins (λ a. a) 64 64 64 (λ i. idle) 1000000 (card 3)
      (λ i. (egress_with 512, refl, omega arith)) (omega arith) (omega arith) (omega arith) refl
      refl
