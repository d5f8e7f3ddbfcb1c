-- ===== src/Vqueue/Notify.antt =====
-- The used ring and the notification flag.
use trusted_gateway.Prelude.{ℕ, ◌+◌, ◌%◌, ◌<◌, ◌≡◌, ◌⊎◌, true, false, arith}
use trusted_gateway.Vqueue.State.{Ring, Vqueue, Buf, Status, no_error}
use trusted_gateway.Vqueue.Avail.{avail_count}
use trusted_gateway.Vqueue.Used.{vqueue_add_buf, vqueue_num_of_avail_buf_and_notify}

-- The outcome of handing a buffer back.
abbrev pub Returned : Ring → Vqueue → Buf → ℕ → ℕ → Status × Ring → Type 0
Returned ring vq b len j (no_error, ring') =
    (b.head < vq.num)
    × (ring'.used_ring (ring.used_idx % vq.num) ≡ record { id = b.head; len = len })
    × ((j ≡ ring.used_idx % vq.num) ⊎ (ring'.used_ring j ≡ ring.used_ring j))
    × (ring'.used_idx ≡ (ring.used_idx + 1) % 0x10000)
    × (ring'.avail_idx ≡ ring.avail_idx)
Returned ring vq b len j (s, ring') = ring' ≡ ring

-- `vqueue_add_buf` either publishes the buffer's head and length in the next slot of the used ring,
-- leaves the other slots, and moves the index on by one, or reports an error and changes nothing.
pub vqueue_add_buf-Returned :
    (ring : Ring) (vq : Vqueue) (b : Buf) (len j : ℕ)
    → Returned ring vq b len j (vqueue_add_buf ring vq b len)
unfolding vqueue_add_buf
vqueue_add_buf-Returned ring vq b len j = ground arith

-- No wake-up is lost: with 16-bit indices, when the function answers 0 it has asked for notifications
-- and no buffer was there at its second look; when it answers a positive number, notifications are
-- off, and the number is that of the buffers at its first or at its second look.
pub num_of_avail_buf_and_notify_lem :
    (ring : Ring) (later : ℕ) (vq : Vqueue)
    → ring.avail_idx < 0x10000
    → later < 0x10000
    → vq.last_avail_idx < 0x10000
    → let (n, ring') = vqueue_num_of_avail_buf_and_notify ring later vq in
      ((n ≡ 0) × (ring'.used_no_notify ≡ false) × (vq.last_avail_idx ≡ later))
      ⊎ ((0 < n)
          × (ring'.used_no_notify ≡ true)
          × ((n ≡ avail_count ring vq) ⊎ (n ≡ avail_count (record ring { avail_idx = later }) vq)))
unfolding vqueue_num_of_avail_buf_and_notify
num_of_avail_buf_and_notify_lem ring later vq p q r = ground arith
