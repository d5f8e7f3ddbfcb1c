-- ===== src/Vnic/Tests.antt =====
-- One packet of 48 bytes in each direction.
use trusted_gateway.Prelude.{
  ℕ, ◌+◌, ◌≡◌, ◌≤◌, ◌⊎◌, refl, ap, subst, true, false, List, [], ◌∷◌, ◌++◌, Option, none, some, ok,
  panic, out_of_bounds, Returns, Ensures, arith, length, replicate, length-replicate,
}
use trusted_gateway.Vqueue.State.{Desc, Ring, Vqueue, Iov}
use trusted_gateway.Vqueue.Iovs.{map_from}
use trusted_gateway.Vqueue.Readable.{Readable}
use trusted_gateway.Pktq.Ops.{Pktq}
use trusted_gateway.Ringbuf.Ops.{copy_from}
use trusted_gateway.Ethbuf.Data.{Ethbuf, payload}
use trusted_gateway.Iovec.Ops.{Memory, bytes}
use trusted_gateway.Vnic.Frames.{Frame, with_room}
use trusted_gateway.Vnic.FlushTx.{Round, Tx, started, with_buf, virtio_net_flush_tx}
use trusted_gateway.Vnic.Delivered.{Fresh, Delivered, with_buf-Delivered}
use trusted_gateway.Vnic.Ownership.{Shared, virtio_net_flush_tx-Balanced}
use trusted_gateway.Vnic.Passed.{Safe, Spoilt, Passed, virtio_net_flush_tx-Passed}
use trusted_gateway.Vnic.Overrun.{with_buf-panic}
use trusted_gateway.Vnic.Receive.{Packet, Meanwhile, vnet_hdr, put_packet, virtio_net_receive}
use trusted_gateway.Vnic.Consumed.{Reported, virtio_net_receive-Reported}
use trusted_gateway.Vnic.Handed.{put_packet-Delivered}

-- A buffer of the pool, whose array is kept shut.
blank : List ℕ
blank = replicate 2048 0

blank_lem : length blank ≡ 2048
unfolding blank
blank_lem = length-replicate {A = ℕ} 2048 0

abbrev buffer : Frame
buffer = record { id = 7; eb = record { data_len = 0; data_off = 2; buf_cap = 2048; buf = blank } }

abbrev silent : Memory
silent a = 0

-- A ring on which the chain of descriptor 0 is available.
abbrev desc : ℕ → ℕ → Desc
desc a n = record {
  addr = a;
  addr_again = a;
  len = n;
  len_again = n;
  f_write = false;
  f_next = false;
  next = 0;
}

abbrev ring_of : Desc → Ring
ring_of d = record {
  desc = λ i. d;
  avail_idx = 1;
  avail_idx_again = 1;
  avail_ring = λ i. 0;
  used_no_notify = false;
  used_idx = 0;
  used_ring = λ i. record { id = 0; len = 0 };
}

abbrev queue : Vqueue
queue = record {
  id = 1;
  num = 256;
  num_default = 256;
  desc_ptr = 1;
  avail_ptr = 2;
  used_ptr = 3;
  vring_addr = 1;
  vring_sz = 9000;
  vring_align = 4096;
  last_avail_idx = 0;
}

abbrev egress : Pktq
egress = record {
  stopped = false;
  next_read = 0;
  next_write = 0;
  count = 0;
  capacity = 512;
  pkt = [];
}

abbrev va : ℕ → ℕ
va a = a

abbrev round : Round
round = record {
  frame = some buffer;
  writes = λ ring. ring_of (desc 0x1000 60);
  header_mem = silent;
  data_mem = silent;
}

abbrev frame_or : Frame → Option Frame → Frame
frame_or f none = f
frame_or f (some g) = g

round-Fresh : (f : Frame) → round.frame ≡ some f → Fresh f
round-Fresh f e = subst Fresh (ap (frame_or buffer) e) (blank_lem, refl)

virtio_net_flush_tx-Passed_example :
    Safe (Spoilt va (λ i. round) 0 (started (ring_of (desc 0x1000 60)) queue)) (Passed egress) (
      virtio_net_flush_tx va true 256
        (some egress)
        true
        (λ i. round)
        (ring_of (desc 0x1000 60))
        queue)
virtio_net_flush_tx-Passed_example =
    virtio_net_flush_tx-Passed va true 256 egress true (λ i. round) (ring_of (desc 0x1000 60)) queue
      (omega arith) (λ i. (λ ring j. (omega arith, refl), round-Fresh))

virtio_net_flush_tx-Balanced_example : Ensures Shared (
    virtio_net_flush_tx va true 256
      (some egress)
      true
      (λ i. round)
      (ring_of (desc 0x1000 60))
      queue)
virtio_net_flush_tx-Balanced_example =
    virtio_net_flush_tx-Balanced va true 256 (some egress) true (λ i. round)
      (ring_of (desc 0x1000 60)) queue

-- The variables of a round that has taken a chain of one entry off the ring.
abbrev taken_one : ℕ → ℕ → Tx
taken_one n sum = record (started (ring_of (desc 0x1000 60)) queue) {
  buf = record {
    head = 0;
    in_iovs = record {
      cnt = 4;
      used = 1;
      len = sum;
      iovs = record { base = 0; len = n; phys = 0x1000 } ∷ [];
    };
    out_iovs = with_room 0;
  };
}

one-Readable : Readable (taken_one 60 60).buf.in_iovs
one-Readable = record {
  valid = record { room = omega arith; filled = refl };
  four = refl;
  summed = omega arith;
  small = omega arith;
}

with_buf-Delivered_example :
    Returns
      (Delivered va round buffer (taken_one 60 60))
      (with_buf va round buffer (taken_one 60 60))
with_buf-Delivered_example =
    with_buf-Delivered va round buffer (taken_one 60 60) one-Readable (blank_lem, refl) refl

-- A chain of two entries, 4294967280 and 76 bytes long, which is taken for one of 60 bytes.
abbrev huge : Iov
huge = record { base = 0; len = 0xfffffff0; phys = 0x1000 }

abbrev rest_part : Iov
rest_part = record { base = 0; len = 76; phys = 0x2000 }

abbrev taken_two : Tx
taken_two = record (started (ring_of (desc 0x1000 60)) queue) {
  buf = record {
    head = 0;
    in_iovs = record { cnt = 4; used = 2; len = 60; iovs = huge ∷ rest_part ∷ [] };
    out_iovs = with_room 0;
  };
}

with_buf-panic_example : with_buf va round buffer taken_two ≡ panic out_of_bounds
unfolding map_from
with_buf-panic_example =
    with_buf-panic va round buffer taken_two huge (rest_part ∷ [])
      (record {
        entries = refl;
        some_used = omega arith;
        room = omega arith;
        first = omega arith;
        in_u32 = omega arith;
        lower = omega arith;
        upper = omega arith;
      })
      (blank_lem, refl) refl refl refl refl

abbrev to_linux : Packet
to_linux = record {
  frame = record {
    id = 9;
    eb = record { data_len = 60; data_off = 2; buf_cap = 2048; buf = blank };
  };
  rest = [];
}

abbrev quiet : ℕ → Meanwhile
quiet i = record { writes = λ ring. ring; stores = λ mem. mem }

virtio_net_receive-Reported_example : Ensures (Reported va 256 (some to_linux ∷ none ∷ [])) (
    virtio_net_receive va 256 true quiet
      (some to_linux ∷ none ∷ [])
      (record (ring_of (desc 0x1000 1526)) { avail_idx = 200; avail_idx_again = 200 })
      queue
      silent)
virtio_net_receive-Reported_example =
    virtio_net_receive-Reported va 256 true quiet (some to_linux ∷ none ∷ [])
      (record (ring_of (desc 0x1000 1526)) { avail_idx = 200; avail_idx_again = 200 }) queue silent

-- A packet of three bytes in an array of eight, and an entry of four bytes more.
abbrev short : Ethbuf
short = record {
  data_len = 3;
  data_off = 2;
  buf_cap = 8;
  buf = 0 ∷ 0 ∷ 1 ∷ 2 ∷ 3 ∷ 77 ∷ 78 ∷ 79 ∷ [];
}

abbrev entry : ℕ → Iov
entry n = record { base = 0x1000; len = n; phys = 0 }

put_packet-Delivered_example :
    (mem' : Memory) × (put_packet silent (entry 17 ∷ []) short ≡ ok (true, mem'))
    × (bytes mem' 0x1000 17 ≡ vnet_hdr ++ (payload short ++ copy_from short.buf 5 2))
    × ((a n : ℕ) → (a + n ≤ 0x1000) ⊎ (0x1000 + 17 ≤ a) → bytes mem' a n ≡ bytes silent a n)
put_packet-Delivered_example =
    put_packet-Delivered silent (entry 17) [] short
      (record {
        based = omega arith;
        fits = omega arith;
        in_u32 = omega arith;
        some_data = omega arith;
        valid = record { sized = refl; inside = omega arith; in_u32 = omega arith };
      })
      (omega arith)
