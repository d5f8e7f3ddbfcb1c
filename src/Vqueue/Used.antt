-- ===== src/Vqueue/Used.antt =====
-- Handing buffers back on the used ring, and the flag that asks the other side not to notify.
use trusted_gateway.Prelude.{ℕ, ◌+◌, ◌%◌, true, false, if◌then◌else◌, ◌==◌, ◌!=◌, leb}
use trusted_gateway.Vqueue.State.{
  Ring, UsedElem, Vqueue, Buf, Status, no_error, channel_closed, not_valid, u16,
}
use trusted_gateway.Vqueue.Avail.{avail_count}

abbrev pub at : (ℕ → UsedElem) → ℕ → UsedElem → ℕ → UsedElem
at f i e j = if i == j then e else f j

-- `_vqueue_add_buf_locked`, under the lock of `vqueue_add_buf`.
unfoldable pub vqueue_add_buf : Ring → Vqueue → Buf → ℕ → Status × Ring
vqueue_add_buf ring vq b len =
    if vq.vring_addr == 0
    then (channel_closed, ring)
    else (if leb vq.num b.head then (not_valid, ring) else (
      no_error,
      record ring {
        used_ring = at ring.used_ring (ring.used_idx % vq.num) (record { id = b.head; len = len });
        used_idx = u16 (ring.used_idx + 1);
      },
    ))

unfoldable pub vqueue_napi_signal_avail : Ring → Vqueue → Ring
vqueue_napi_signal_avail ring vq =
    if vq.vring_addr != 0 then record ring { used_no_notify = true } else ring

-- `vqueue_num_of_avail_buf_and_notify`, of a queue that is set up: its caller, `vnic_poll`, has written
-- to the ring before. The other side may publish buffers between the reads of the index: `later` is
-- what those after the first one read.
unfoldable pub vqueue_num_of_avail_buf_and_notify : Ring → ℕ → Vqueue → ℕ × Ring
vqueue_num_of_avail_buf_and_notify ring later vq =
    let first = avail_count ring vq in
    let raced = record ring { avail_idx = later; used_no_notify = false } in
    if first == 0
    then (if vq.last_avail_idx == later
        then (0, raced)
        else (avail_count raced vq, record raced { used_no_notify = true }))
    else (first, record ring { used_no_notify = true })
