-- ===== src/Virtio/Fixed.antt =====
-- What no write of the driver changes: the network configuration and the device's features.
use trusted_gateway.Prelude.{
  ℕ, ◌-◌, ◌%◌, ◌≡◌, inl, inr, refl, ◌∙◌, false, Outcome, ok, panic, Ensures, ◌>>=◌, ◌==◌, ◌-◌,
  bit_and, arith, Bool-cases,
}
use trusted_gateway.Vqueue.Setup.{Mmu}
use trusted_gateway.Virtio.State.{Vdev, Mmio, MmioQueue}
use trusted_gateway.Virtio.Net.{virtio_net_set_status, virtio_net_reset, virtio_net_set_config}
use trusted_gateway.Virtio.Device.{
  virtio_notify_vector, virtio_set_status, reset_queues, virtio_reset, virtio_config_write,
  virtio_queue_set_rings, virtio_queue_set_num, virtio_queue_notify, virtio_set_features,
  virtio_set_features_nocheck,
}
use trusted_gateway.Virtio.Mmio.{
  Register, register, register_write, queue_ready_write, status_write, settle, soft_reset,
  accept_features, vnic_handle_mmio_write, selected, wide, config_start,
}

-- What the device and its driver agree on when the device is probed.
pub record Fixed (d d' : Vdev) : Type 0 where
  pub vnet : d'.vnet ≡ d.vnet
  pub config_len : d'.config_len ≡ d.config_len
  pub host_features : d'.host_features ≡ d.host_features
  pub device_id : d'.device_id ≡ d.device_id

pub Fixed-refl : (d : Vdev) → Fixed d d
Fixed-refl d = record { vnet = refl; config_len = refl; host_features = refl; device_id = refl }

pub Fixed-trans : (a b c : Vdev) → Fixed a b → Fixed b c → Fixed a c
Fixed-trans a b c s t = record {
  vnet = t.vnet ∙ s.vnet;
  config_len = t.config_len ∙ s.config_len;
  host_features = t.host_features ∙ s.host_features;
  device_id = t.device_id ∙ s.device_id;
}

Fixed-then : (a b : Vdev) (o : Outcome Vdev) → Fixed a b → Ensures (Fixed b) o → Ensures (Fixed a) o
Fixed-then a b (ok c) s t = Fixed-trans a b c s t
Fixed-then a b (panic e) s t = tt

-- Such a step of the device, followed by one that does not touch the device.
Fixed-bind :
    (d : Vdev) (o : Outcome Vdev) (k : Vdev → Outcome Mmio)
    → Ensures (Fixed d) o
    → ((d' : Vdev) → Fixed d d' → Ensures (λ m. Fixed d m.vdev) (k d'))
    → Ensures (λ m. Fixed d m.vdev) (o >>= k)
Fixed-bind d (ok d') k s t = t d' s
Fixed-bind d (panic e) k s t = tt

set_status-Fixed : (d : Vdev) (v : ℕ) → Fixed d (virtio_set_status d v)
unfolding virtio_set_status virtio_net_set_status
set_status-Fixed d v = ground arith

notify_vector-Fixed : (d : Vdev) → Fixed d (virtio_notify_vector d)
unfolding virtio_notify_vector
notify_vector-Fixed d = ground arith

notify-Fixed : (d : Vdev) (n : ℕ) → Fixed d (virtio_queue_notify d n)
unfolding virtio_queue_notify
notify-Fixed d n = ground arith

set_num-Fixed : (d : Vdev) (n num : ℕ) → Fixed d (virtio_queue_set_num d n num)
unfolding virtio_queue_set_num
set_num-Fixed d n num = ground arith

set_rings-Fixed :
    (mmu : Mmu) (d : Vdev) (n a b c : ℕ) → Ensures (Fixed d) (virtio_queue_set_rings mmu d n a b c)
unfolding virtio_queue_set_rings
set_rings-Fixed mmu d n a b c = ground (arith, Fixed-refl d)

config_write-Fixed : (d : Vdev) (o v size : ℕ) → Ensures (Fixed d) (virtio_config_write d o v size)
unfolding virtio_config_write virtio_net_set_config
config_write-Fixed d o v size = ground arith

accept-Fixed : (m : Mmio) (value : ℕ) → Ensures (Fixed m.vdev) (accept_features m value)
unfolding accept_features virtio_set_features virtio_set_features_nocheck
accept-Fixed m value = ground arith

reset_queues-Fixed : (d : Vdev) → Ensures (Fixed d) (reset_queues d)
unfolding reset_queues
reset_queues-Fixed d = ground arith

reset-Fixed : (d : Vdev) → Ensures (Fixed d) (virtio_reset d)
unfolding virtio_reset virtio_net_reset
reset-Fixed d =
    Fixed-then d (virtio_notify_vector cleared) (reset_queues (virtio_notify_vector cleared))
      (Fixed-trans d cleared (virtio_notify_vector cleared) start (notify_vector-Fixed cleared))
      (reset_queues-Fixed (virtio_notify_vector cleared))
  where
    cleared : Vdev
    cleared = record (virtio_set_status d 0) {
      started = false;
      guest_features = 0;
      queue_sel = 0;
      status = 0;
      isr = 0;
    }

    start : Fixed d cleared
    start = ground (arith, set_status-Fixed d 0)

-- A write to the device and what it keeps.
abbrev pub KeepsFixed : Mmio → Outcome Mmio → Type 0
KeepsFixed m = Ensures (λ m'. Fixed m.vdev m'.vdev)

queue_ready-Fixed :
    (mmu : Mmu) (m : Mmio) (value : ℕ) → KeepsFixed m (queue_ready_write mmu m value)
unfolding queue_ready_write
queue_ready-Fixed mmu m value = elim (Bool-cases (value == 0)) [
  | inl e ↦ rw e (Fixed-refl m.vdev)
  | inr e ↦ rw e (
      Fixed-bind m.vdev call (λ d. ok (record m { vdev = d; vqs = _ }))
        (Fixed-then m.vdev renum call (set_num-Fixed m.vdev m.vdev.queue_sel q.num) (
          set_rings-Fixed mmu renum m.vdev.queue_sel (wide q.desc_high q.desc_low)
            (wide q.avail_high q.avail_low) (wide q.used_high q.used_low)))
        (λ d f. f))
]
  where
    q : MmioQueue
    q = selected m

    renum : Vdev
    renum = virtio_queue_set_num m.vdev m.vdev.queue_sel q.num

    call : Outcome Vdev
    call =
        virtio_queue_set_rings mmu renum m.vdev.queue_sel (wide q.desc_high q.desc_low)
          (wide q.avail_high q.avail_low) (wide q.used_high q.used_low)

settle-Fixed : (m : Mmio) (d : Vdev) → Ensures (λ m'. Fixed d m'.vdev) (settle m d)
unfolding settle soft_reset
settle-Fixed m d = elim (Bool-cases (d.status == 0)) [
  | inl e ↦ rw e (
      Fixed-bind d (virtio_reset d) (λ d'. ok (soft_reset (record m { vdev = d' }))) (reset-Fixed d)
        (λ d' f. f))
  | inr e ↦ rw e (Fixed-refl d)
]

status-Fixed : (m : Mmio) (value : ℕ) → KeepsFixed m (status_write m value)
unfolding status_write
status-Fixed m value =
    Fixed-bind m.vdev (accept_features m value) (λ d. settle m (virtio_set_status d (value % 256)))
      (accept-Fixed m value)
      (λ d f.
        settled d f (settle m (virtio_set_status d (value % 256)))
          (settle-Fixed m (virtio_set_status d (value % 256))))
  where
    settled :
        (d : Vdev)
        → Fixed m.vdev d
        → (o : Outcome Mmio) → Ensures (λ m'. Fixed (virtio_set_status d (value % 256)) m'.vdev) o
        → KeepsFixed m o
    settled d f (ok m') g = Fixed-trans m.vdev d m'.vdev f (
        Fixed-trans d (virtio_set_status d (value % 256)) m'.vdev (set_status-Fixed d (value % 256))
          g)
    settled d f (panic e) g = tt

register_write-Fixed :
    (mmu : Mmu) (r : Register) (m : Mmio) (value : ℕ) → KeepsFixed m (register_write mmu r m value)
unfolding register_write
register_write-Fixed mmu Register.device_features_sel m value = ground (arith, Fixed-refl m.vdev)
register_write-Fixed mmu Register.driver_features m value = ground (arith, Fixed-refl m.vdev)
register_write-Fixed mmu Register.driver_features_sel m value = ground (arith, Fixed-refl m.vdev)
register_write-Fixed mmu Register.queue_sel m value = ground (arith, Fixed-refl m.vdev)
register_write-Fixed mmu Register.queue_num m value = set_num-Fixed m.vdev m.vdev.queue_sel value
register_write-Fixed mmu Register.queue_ready m value = queue_ready-Fixed mmu m value
register_write-Fixed mmu Register.queue_notify m value = ground (arith, notify-Fixed m.vdev value)
register_write-Fixed mmu Register.interrupt_ack m value =
    ground
      (arith, notify_vector-Fixed (record m.vdev { isr = bit_and m.vdev.isr (255 - value % 256) }))
register_write-Fixed mmu Register.status m value = status-Fixed m value
register_write-Fixed mmu Register.desc_low m value = ground (arith, Fixed-refl m.vdev)
register_write-Fixed mmu Register.desc_high m value = ground (arith, Fixed-refl m.vdev)
register_write-Fixed mmu Register.avail_low m value = ground (arith, Fixed-refl m.vdev)
register_write-Fixed mmu Register.avail_high m value = ground (arith, Fixed-refl m.vdev)
register_write-Fixed mmu Register.used_low m value = ground (arith, Fixed-refl m.vdev)
register_write-Fixed mmu Register.used_high m value = ground (arith, Fixed-refl m.vdev)
register_write-Fixed mmu Register.not_writable m value = ground (arith, Fixed-refl m.vdev)

pub write-Fixed :
    (mmu : Mmu) (m : Mmio) (offset value size : ℕ)
    → KeepsFixed m (vnic_handle_mmio_write mmu m offset value size)
unfolding vnic_handle_mmio_write
write-Fixed mmu m offset value size = ground (
  arith,
  config_write-Fixed m.vdev (offset - config_start) value size,
  register_write-Fixed mmu (register offset) m value,
  Fixed-refl m.vdev,
)
