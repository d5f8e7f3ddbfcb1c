-- ===== src/Virtio/Guards.antt =====
-- What the driver's accesses to the registers can and cannot do to the device.
use trusted_gateway.Prelude.{
  ℕ, ◌-◌, ◌%◌, ◌<◌, ◌≡◌, inl, inr, refl, subst, Bool, true, false, not, ◌&&◌, ◌||◌, Outcome, ok,
  panic, Returns, if◌then◌else◌, ◌==◌, ltb, bit_and, arith, Bool-cases, Outcome-cases,
}
use trusted_gateway.Vqueue.Setup.{Mmu}
use trusted_gateway.Virtio.State.{Vdev, Mmio, MmioQueue, has, features_ok, f_version_1, u32_mod}
use trusted_gateway.Virtio.Device.{
  virtio_notify_vector, virtio_set_status, out_of_region, valid_width, virtio_queue_set_rings,
  virtio_queue_set_num, virtio_queue_notify, virtio_set_features, virtio_set_features_nocheck,
}
use trusted_gateway.Virtio.Mmio.{
  Register, register, register_write, queue_ready_write, status_write, settle, soft_reset,
  accept_features, vnic_handle_mmio_write, selected, wide, config_start,
}
use trusted_gateway.Virtio.Queues.{
  SafeDevice, Alike-SafeDevice, set_status-Alike, notify_vector-Alike, notify-Alike,
  set_num-SafeDevice, reset-SafeDevice, GuardedDevice, set_rings-Guarded, config_write-Guarded,
}

-- Every selector of the transport names an entry of its table.
pub record Inv (m : Mmio) : Type 0 where
  pub device : SafeDevice m.vdev
  pub guest_in : m.guest_features_sel < 2
  pub host_in : m.host_features_sel < 2

-- Whether one of the ring addresses that the selected queue is given is NULL.
abbrev pub null_ring : MmioQueue → Bool
null_ring q =
    wide q.desc_high q.desc_low % u32_mod == 0
    || wide q.avail_high q.avail_low % u32_mod == 0
    || wide q.used_high q.used_low % u32_mod == 0

-- Whether the set-up of the features finds no `VIRTIO_F_VERSION_1`.
abbrev pub features_refused : Mmio → Bool
features_refused m =
    not (has m.vdev.status features_ok)
    && not (
        has (bit_and (wide (m.guest_features 1) (m.guest_features 0)) m.vdev.host_features)
          f_version_1)

-- The three ways in which a driver can stop the trusted side.
abbrev pub register_misuse : Register → Mmio → ℕ → Bool
register_misuse Register.queue_ready m value = not (value == 0) && null_ring (selected m)
register_misuse Register.status m value = has value features_ok && features_refused m
register_misuse _ m value = false

abbrev pub misuse : Mmio → ℕ → ℕ → ℕ → Bool
misuse m offset value size =
    if not (ltb offset config_start)
    then not (out_of_region m.vdev (offset - config_start) size) && not (valid_width size)
    else size == 4 && register_misuse (register offset) m value

abbrev pub Guarded : Bool → Outcome Mmio → Type 0
Guarded bad (ok m) = (bad ≡ false) × Inv m
Guarded bad (panic e) = bad ≡ true

accept-Guarded :
    (m : Mmio) (value : ℕ)
    → SafeDevice m.vdev
    → GuardedDevice (has value features_ok && features_refused m) (accept_features m value)
unfolding accept_features virtio_set_features virtio_set_features_nocheck
accept-Guarded m value s = ground arith

queue_ready-Guarded :
    (mmu : Mmu) (m : Mmio) (value : ℕ)
    → Inv m
    → Guarded (register_misuse Register.queue_ready m value) (queue_ready_write mmu m value)
unfolding queue_ready_write
queue_ready-Guarded mmu m value v = elim (Bool-cases (value == 0)) [
  | inl e ↦ rw e (refl, ground (arith, v.device, v.guest_in, v.host_in))
  | inr e ↦ elim (Outcome-cases call) [
    | inl (d, f) ↦
        let (fine, s) = subst (GuardedDevice (null_ring q)) f kept in
        rw e (rw f (fine, record { device = s; guest_in = v.guest_in; host_in = v.host_in }))
    | inr (x, f) ↦ rw e (rw f (subst (GuardedDevice (null_ring q)) f kept))
  ]
]
  where
    q : MmioQueue
    q = selected m

    renum : Vdev
    renum = virtio_queue_set_num m.vdev m.vdev.queue_sel q.num

    call : Outcome Vdev
    call =
        virtio_queue_set_rings mmu renum m.vdev.queue_sel (wide q.desc_high q.desc_low)
          (wide q.avail_high q.avail_low) (wide q.used_high q.used_low)

    kept : GuardedDevice (null_ring q) call
    kept =
        set_rings-Guarded mmu renum m.vdev.queue_sel (wide q.desc_high q.desc_low)
          (wide q.avail_high q.avail_low) (wide q.used_high q.used_low)
          (set_num-SafeDevice m.vdev m.vdev.queue_sel q.num v.device)

settle-Returns : (m : Mmio) (d : Vdev) → Inv m → SafeDevice d → Returns Inv (settle m d)
unfolding settle soft_reset
settle-Returns m d v s = ground (arith, reset-SafeDevice d s)

Returns-Guarded : (bad : Bool) (o : Outcome Mmio) → bad ≡ false → Returns Inv o → Guarded bad o
Returns-Guarded bad (ok m) e v = (e, v)
Returns-Guarded bad (panic x) e v = absurd v

status-Guarded :
    (m : Mmio) (value : ℕ)
    → Inv m
    → Guarded (register_misuse Register.status m value) (status_write m value)
unfolding status_write
status-Guarded m value v = elim (Outcome-cases (accept_features m value)) [
  | inl (d, e) ↦
      let (fine, s) = subst (GuardedDevice bad) e (accept-Guarded m value v.device) in
      let after = virtio_set_status d (value % 256) in
      rw e (
        Returns-Guarded bad (settle m after) fine (
          settle-Returns m after v (Alike-SafeDevice d after (set_status-Alike d (value % 256)) s)))
  | inr (x, e) ↦ rw e (subst (GuardedDevice bad) e (accept-Guarded m value v.device))
]
  where
    bad : Bool
    bad = register_misuse Register.status m value

register_write-Guarded :
    (mmu : Mmu) (r : Register) (m : Mmio) (value : ℕ)
    → Inv m
    → Guarded (register_misuse r m value) (register_write mmu r m value)
unfolding register_write
register_write-Guarded mmu Register.device_features_sel m value v =
    ground (arith, v.device, v.guest_in, v.host_in)
register_write-Guarded mmu Register.driver_features m value v =
    ground (arith, v.device, v.guest_in, v.host_in)
register_write-Guarded mmu Register.driver_features_sel m value v =
    ground (arith, v.device, v.guest_in, v.host_in)
register_write-Guarded mmu Register.queue_sel m value v =
    ground (arith, v.device, v.guest_in, v.host_in)
register_write-Guarded mmu Register.queue_num m value v = (
  refl,
  record {
    device = set_num-SafeDevice m.vdev m.vdev.queue_sel value v.device;
    guest_in = v.guest_in;
    host_in = v.host_in;
  },
)
register_write-Guarded mmu Register.queue_ready m value v = queue_ready-Guarded mmu m value v
register_write-Guarded mmu Register.queue_notify m value v = ground (
  arith,
  Alike-SafeDevice m.vdev (virtio_queue_notify m.vdev value) (notify-Alike m.vdev value) v.device,
  v.device,
  v.guest_in,
  v.host_in,
)
register_write-Guarded mmu Register.interrupt_ack m value v =
    let acked = record m.vdev { isr = bit_and m.vdev.isr (255 - value % 256) } in
    (
      refl,
      record {
        device =
            Alike-SafeDevice acked (virtio_notify_vector acked) (notify_vector-Alike acked)
              (record { queue_in = v.device.queue_in; queues = v.device.queues });
        guest_in = v.guest_in;
        host_in = v.host_in;
      },
    )
register_write-Guarded mmu Register.status m value v = status-Guarded m value v
register_write-Guarded mmu Register.desc_low m value v =
    ground (arith, v.device, v.guest_in, v.host_in)
register_write-Guarded mmu Register.desc_high m value v =
    ground (arith, v.device, v.guest_in, v.host_in)
register_write-Guarded mmu Register.avail_low m value v =
    ground (arith, v.device, v.guest_in, v.host_in)
register_write-Guarded mmu Register.avail_high m value v =
    ground (arith, v.device, v.guest_in, v.host_in)
register_write-Guarded mmu Register.used_low m value v =
    ground (arith, v.device, v.guest_in, v.host_in)
register_write-Guarded mmu Register.used_high m value v =
    ground (arith, v.device, v.guest_in, v.host_in)
register_write-Guarded mmu Register.not_writable m value v =
    ground (arith, v.device, v.guest_in, v.host_in)

-- A write of the driver to the device stops the trusted side exactly if it is one of three misuses:
-- a write inside the configuration space, of a width other than 1, 2 and 4; a queue made ready with
-- a ring at address 0; and FEATURES_OK set anew while the features that the driver has accepted lack
-- feature 5, the one that the code tests where it means the version feature 32. Every other write
-- returns and keeps the selectors and the queues within their bounds, so the assertions of the
-- tear-down never fail.
pub vnic_handle_mmio_write-Guarded :
    (mmu : Mmu) (m : Mmio) (offset value size : ℕ)
    → Inv m
    → Guarded (misuse m offset value size) (vnic_handle_mmio_write mmu m offset value size)
unfolding vnic_handle_mmio_write
vnic_handle_mmio_write-Guarded mmu m offset value size v = ground (
  arith,
  config_write-Guarded m.vdev (offset - config_start) value size v.device,
  register_write-Guarded mmu (register offset) m value v,
)
