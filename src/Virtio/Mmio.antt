-- ===== src/Virtio/Mmio.antt =====
-- The register accesses of virtio-mmio.c: `vnic_handle_mmio_write`, `vnic_handle_mmio_read` and the
-- emulation callback `vnic_emu_check`.
use trusted_gateway.Prelude.{
  ℕ, ◌+◌, ◌-◌, ◌*◌, ◌/◌, ◌%◌, ◌^◌, Bool, true, false, not, ◌&&◌, ◌||◌, Outcome, ok, panic,
  bad_width, ◌>>=◌, if◌then◌else◌, ◌==◌, ltb, bit_and,
}
use trusted_gateway.Vqueue.Setup.{Mmu}
use trusted_gateway.Virtio.State.{
  Vdev, MmioQueue, Mmio, at, queue_max, vq_max_size, features_ok, has, u32_mod,
}
use trusted_gateway.Virtio.Device.{
  virtio_notify_vector, virtio_set_status, virtio_reset, virtio_config_read, virtio_config_write,
  virtio_queue_set_rings, virtio_queue_set_num, virtio_queue_notify, virtio_set_features,
}

abbrev pub config_start : ℕ
config_start = 0x100

-- The register offsets of virtio_mmio.h.
pub data Register : Type 0 where
  device_features_sel driver_features driver_features_sel queue_sel queue_num queue_ready
        queue_notify interrupt_ack status desc_low desc_high avail_low avail_high used_low used_high
        not_writable :
      Register

unfoldable pub register : ℕ → Register
register o =
    if o == 0x014
    then device_features_sel
    else (if o == 0x020
        then driver_features
        else (if o == 0x024
            then driver_features_sel
            else (if o == 0x030
                then queue_sel
                else (if o == 0x038
                    then queue_num
                    else (if o == 0x044
                        then queue_ready
                        else (if o == 0x050
                            then queue_notify
                            else (if o == 0x064
                                then interrupt_ack
                                else (if o == 0x070
                                    then status
                                    else (if o == 0x080
                                        then desc_low
                                        else (if o == 0x084
                                            then desc_high
                                            else (if o == 0x090
                                                then avail_low
                                                else (if o == 0x094
                                                    then avail_high
                                                    else (if o == 0x0a0
                                                        then used_low
                                                        else (if o == 0x0a4
                                                            then used_high
                                                            else not_writable))))))))))))))

abbrev pub selected : Mmio → MmioQueue
selected m = m.vqs m.vdev.queue_sel

-- `vmmio->vqs[vdev->queue_sel]` replaced.
abbrev pub with_selected : Mmio → MmioQueue → Mmio
with_selected m q = record m { vqs = at m.vqs m.vdev.queue_sel q }

-- A 64-bit number from its two halves.
abbrev pub wide : ℕ → ℕ → ℕ
wide high low = u32_mod * high + low

-- The `QUEUE_READY` register.
unfoldable pub queue_ready_write : Mmu → Mmio → ℕ → Outcome Mmio
queue_ready_write mmu m value =
    let q = selected m in
    if value == 0 then ok (with_selected m (record q { enabled = false })) else (do
      let d = virtio_queue_set_num m.vdev m.vdev.queue_sel q.num
      d' ←
          virtio_queue_set_rings mmu d m.vdev.queue_sel (wide q.desc_high q.desc_low)
            (wide q.avail_high q.avail_low) (wide q.used_high q.used_low)
      ok (with_selected (record m { vdev = d' }) (record q { enabled = true })))

unfoldable pub soft_reset : Mmio → Mmio
soft_reset m = record m {
  vqs =
      at (at m.vqs 0 (record (m.vqs 0) { enabled = false })) 1
        (record (m.vqs 1) { enabled = false });
}

-- The driver's features, if `FEATURES_OK` is written; the answer of the call is dropped.
unfoldable pub accept_features : Mmio → ℕ → Outcome Vdev
accept_features m value =
    if has value features_ok
    then (virtio_set_features m.vdev (wide (m.guest_features 1) (m.guest_features 0)) >>= λ r.
        ok r.1)
    else ok m.vdev

-- The end of a write of the status: 0 resets the device.
unfoldable pub settle : Mmio → Vdev → Outcome Mmio
unfolding soft_reset
settle m d =
    if d.status == 0
    then (virtio_reset d >>= λ d'. ok (soft_reset (record m { vdev = d' })))
    else ok (record m { vdev = d })

-- The `STATUS` register.
unfoldable pub status_write : Mmio → ℕ → Outcome Mmio
unfolding accept_features settle
status_write m value = accept_features m value >>= λ d. settle m (virtio_set_status d (value % 256))

unfoldable pub register_write : Mmu → Register → Mmio → ℕ → Outcome Mmio
unfolding queue_ready_write status_write
register_write mmu device_features_sel m value =
    ok (record m { host_features_sel = if value == 0 then 0 else 1 })
register_write mmu driver_features m value =
    ok (record m { guest_features = at m.guest_features m.guest_features_sel value })
register_write mmu driver_features_sel m value =
    ok (record m { guest_features_sel = if value == 0 then 0 else 1 })
register_write mmu queue_sel m value =
    ok (if ltb value queue_max then record m { vdev = record m.vdev { queue_sel = value } } else m)
register_write mmu queue_num m value = ok (record m {
  vdev = virtio_queue_set_num m.vdev m.vdev.queue_sel value;
  vqs = at m.vqs m.vdev.queue_sel (record (selected m) { num = value % 0x10000 });
})
register_write mmu queue_ready m value = queue_ready_write mmu m value
register_write mmu queue_notify m value =
    ok (if ltb value queue_max then record m { vdev = virtio_queue_notify m.vdev value } else m)
register_write mmu interrupt_ack m value = ok (record m {
  vdev = virtio_notify_vector (record m.vdev { isr = bit_and m.vdev.isr (255 - value % 256) });
})
register_write mmu status m value = status_write m value
register_write mmu desc_low m value =
    ok (with_selected m (record (selected m) { desc_low = value }))
register_write mmu desc_high m value =
    ok (with_selected m (record (selected m) { desc_high = value }))
register_write mmu avail_low m value =
    ok (with_selected m (record (selected m) { avail_low = value }))
register_write mmu avail_high m value =
    ok (with_selected m (record (selected m) { avail_high = value }))
register_write mmu used_low m value =
    ok (with_selected m (record (selected m) { used_low = value }))
register_write mmu used_high m value =
    ok (with_selected m (record (selected m) { used_high = value }))
register_write mmu not_writable m value = ok m

unfoldable pub vnic_handle_mmio_write : Mmu → Mmio → ℕ → ℕ → ℕ → Outcome Mmio
unfolding register_write register
vnic_handle_mmio_write mmu m offset value size =
    if not (ltb offset config_start)
    then (virtio_config_write m.vdev (offset - config_start) value size >>= λ d.
        ok (record m { vdev = d }))
    else (if size == 4 then register_write mmu (register offset) m value else ok m)

-- The registers that can be read; the others answer 0.
unfoldable pub register_read : Mmio → ℕ → ℕ
register_read m o =
    if o == 0x000
    then 0x74726976
    else (if o == 0x004
        then 2
        else (if o == 0x008
            then m.vdev.device_id
            else (if o == 0x00c
                then 0x554d4551
                else (if o == 0x010
                    then m.vdev.host_features / 2 ^ (32 * m.host_features_sel) % u32_mod
                    else (if o == 0x034
                        then (if (m.vdev.vq m.vdev.queue_sel).num == 0 then 0 else vq_max_size)
                        else (if o == 0x044
                            then (if (selected m).enabled then 1 else 0)
                            else (if o == 0x060
                                then m.vdev.isr
                                else (if o == 0x070
                                    then m.vdev.status
                                    else (if o == 0x0fc then m.vdev.generation else 0)))))))))

unfoldable pub vnic_handle_mmio_read : Mmio → ℕ → ℕ → Outcome (ℕ × Mmio)
unfolding register_read
vnic_handle_mmio_read m offset size =
    if not (ltb offset config_start)
    then (virtio_config_read m.vdev (offset - config_start) size >>= λ r.
        ok (r.0, record m { vdev = r.1 }))
    else ok (if size == 4 then register_read m offset else 0, m)

-- `enum emu_state`
pub data EmuState : Type 0 where
  write read_before read_after : EmuState

-- The read value cut to the access's width, and its sign extended to 32 bits.
unfoldable pub widen : ℕ → Bool → ℕ → ℕ
widen size sign v =
    if size == 1
    then (if sign && has (v % 256) 0x80 then v % 256 + 0xffffff00 else v % 256)
    else (if size == 2
        then (if sign && has (v % 65536) 0x8000 then v % 65536 + 0xffff0000 else v % 65536)
        else v)

-- The access's value and whether it is passed on, with the device's new state.
unfoldable pub vnic_emu_check :
    Mmu → Mmio → EmuState → ℕ → ℕ → ℕ → Bool → Outcome ((ℕ × Bool) × Mmio)
unfolding vnic_handle_mmio_write vnic_handle_mmio_read widen
vnic_emu_check mmu m write offset value size sign =
    vnic_handle_mmio_write mmu m offset value size >>= λ m'. ok ((value, false), m')
vnic_emu_check mmu m read_before offset value size sign = ok ((value, true), m)
vnic_emu_check mmu m read_after offset value size sign =
    if size == 1 || size == 2 || size == 4
    then (vnic_handle_mmio_read m offset size >>= λ r. ok ((widen size sign r.0, true), r.1))
    else panic bad_width
