-- ===== src/Virtio/Device.antt =====
-- The functions of virtio.c.
use trusted_gateway.Prelude.{
  ℕ, ◌+◌, ◌-◌, ◌*◌, ◌/◌, ◌%◌, Bool, false, not, ◌&&◌, ◌||◌, List, Outcome, ok, panic, bad_width,
  negotiation, ◌>>=◌, if◌then◌else◌, ◌==◌, ◌!=◌, ltb, bit_and, bit_or, get_or, set,
}
use trusted_gateway.Vqueue.State.{Vqueue}
use trusted_gateway.Vqueue.Setup.{Mmu, vqueue_vring_setup, vqueue_vring_teardown}
use trusted_gateway.Vqueue.Used.{vqueue_napi_signal_avail}
use trusted_gateway.Napi.Ops.{napi_schedule}
use trusted_gateway.Virtio.State.{
  Vdev, at, vq_max_size, driver_ok, features_ok, f_version_1, has, u64_mod, u32_mod,
}
use trusted_gateway.Virtio.Net.{
  virtio_net_get_config, virtio_net_set_config, virtio_net_set_status, virtio_net_reset,
}

unfoldable pub virtio_set_isr : Vdev → ℕ → Vdev
virtio_set_isr d value =
    if bit_and d.isr value != value then record d { isr = bit_or d.isr value } else d

-- `virtio_notify_vector`, by way of `vnic_kick_nw`: the interrupt is raised unless the ISR is 0.
unfoldable pub virtio_notify_vector : Vdev → Vdev
virtio_notify_vector d = if d.isr != 0 then record d { raised = d.raised + 1 } else d

unfoldable pub virtio_notify : Vdev → Vdev
unfolding virtio_set_isr virtio_notify_vector
virtio_notify d = virtio_notify_vector (virtio_set_isr d 0x1)

unfoldable pub virtio_notify_config : Vdev → Vdev
unfolding virtio_set_isr virtio_notify_vector
virtio_notify_config d =
    let d' = virtio_set_isr d 0x3 in
    if not (has d.status driver_ok)
    then d
    else virtio_notify_vector (record d' { generation = (d'.generation + 1) % u32_mod })

-- `virtio_validate_features` accepts everything, so the call always succeeds.
unfoldable pub virtio_set_status : Vdev → ℕ → Vdev
virtio_set_status d val =
    let d' =
      if bit_and d.status driver_ok != bit_and val driver_ok
      then record d { started = has val driver_ok }
      else d in
    record (virtio_net_set_status d' val) { status = val }

-- A queue as `virtio_reset` leaves it.
unfoldable pub reset_queue : Vqueue → Outcome Vqueue
reset_queue vq = do vq' ← vqueue_vring_teardown vq; ok (record vq' { num = vq'.num_default })

-- The loop of `virtio_reset` over the queues.
unfoldable pub reset_queues : Vdev → Outcome Vdev
unfolding reset_queue
reset_queues d = do
  q0 ← reset_queue (d.vq 0)
  q1 ← reset_queue (d.vq 1)
  ok (record d { vq = at (at d.vq 0 q0) 1 q1 })

unfoldable pub virtio_reset : Vdev → Outcome Vdev
unfolding virtio_set_status virtio_notify_vector reset_queues
virtio_reset d =
    let d' = virtio_net_reset (virtio_set_status d 0) in
    reset_queues (
      virtio_notify_vector
        (record d' { started = false; guest_features = 0; queue_sel = 0; status = 0; isr = 0 }))

-- Little-endian reads and writes of 1, 2 or 4 bytes.
abbrev pub read_le : List ℕ → ℕ → ℕ → ℕ
read_le bytes o size =
    if size == 1
    then get_or bytes o 0
    else (if size == 2
        then get_or bytes o 0 + 256 * get_or bytes (o + 1) 0
        else get_or bytes o 0
          + 256 * get_or bytes (o + 1) 0
          + 65536 * get_or bytes (o + 2) 0
          + 16777216 * get_or bytes (o + 3) 0)

abbrev pub write_le : List ℕ → ℕ → ℕ → ℕ → List ℕ
write_le bytes o v size =
    let one = set bytes o (v % 256) in
    let two = set one (o + 1) (v / 256 % 256) in
    let four = set (set two (o + 2) (v / 65536 % 256)) (o + 3) (v / 16777216 % 256) in
    if size == 1 then one else (if size == 2 then two else four)

abbrev pub valid_width : ℕ → Bool
valid_width size = size == 1 || size == 2 || size == 4

-- `paddr_t` has 32 bits.
abbrev pub out_of_region : Vdev → ℕ → ℕ → Bool
out_of_region d offset size = ltb d.config_len ((offset + size) % u32_mod)

unfoldable pub virtio_config_read : Vdev → ℕ → ℕ → Outcome (ℕ × Vdev)
virtio_config_read d offset size = if out_of_region d offset size then ok (0, d) else (do
  d' ← virtio_net_get_config d
  if valid_width size then ok (read_le d'.config offset size, d') else panic bad_width)

unfoldable pub virtio_config_write : Vdev → ℕ → ℕ → ℕ → Outcome Vdev
virtio_config_write d offset value size =
    if out_of_region d offset size
    then ok d
    else (if valid_width size
        then ok (virtio_net_set_config (record d { config = write_le d.config offset value size }))
        else panic bad_width)

-- A failing set-up is only reported.
unfoldable pub virtio_queue_set_rings : Mmu → Vdev → ℕ → ℕ → ℕ → ℕ → Outcome Vdev
virtio_queue_set_rings mmu d n desc avail used = if (d.vq n).num == 0 then ok d else (do
  r ← vqueue_vring_setup mmu (d.vq n) (desc % u32_mod) (avail % u32_mod) (used % u32_mod)
  ok (record d { vq = at d.vq n r.1 }))

-- `num` is the number that the normal world wrote: above 2 ^ 31 it is a negative `int`.
unfoldable pub virtio_queue_set_num : Vdev → ℕ → ℕ → Vdev
virtio_queue_set_num d n num =
    let vq = d.vq n in
    if ((num == 0) && not (vq.num == 0)) || (not (num == 0) && (vq.num == 0)) || ltb vq_max_size num
    then d
    else record d { vq = at d.vq n (record vq { num = num }) }

-- `vqueue_notify` calls `vnic_vq_notify_cb`.
unfoldable pub virtio_queue_notify : Vdev → ℕ → Vdev
virtio_queue_notify d n = if (d.vq n).vring_addr == 0 then d else record d {
  rings = at d.rings n (vqueue_napi_signal_avail (d.rings n) (d.vq n));
  napi = napi_schedule d.napi;
}

-- `guest_offloads_mask` is 0, so `virtio_net_set_features` changes nothing that is modelled.
unfoldable pub virtio_set_features_nocheck : Vdev → ℕ → Outcome (Bool × Vdev)
virtio_set_features_nocheck d val =
    let bad = bit_and val (u64_mod - 1 - d.host_features) != 0 in
    let features = bit_and val d.host_features in
    if has features f_version_1
    then ok (not bad, record d { guest_features = features })
    else panic negotiation

unfoldable pub virtio_set_features : Vdev → ℕ → Outcome (Bool × Vdev)
unfolding virtio_set_features_nocheck
virtio_set_features d val =
    if has d.status features_ok then ok (false, d) else virtio_set_features_nocheck d val
