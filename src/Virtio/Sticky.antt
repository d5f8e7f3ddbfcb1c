-- ===== src/Virtio/Sticky.antt =====
-- Once negotiated, the features of a driver stay while it keeps FEATURES_OK set, up to a reset.
use trusted_gateway.Prelude.{
  ℕ, ◌-◌, ◌%◌, ◌≡◌, ◌⊎◌, inl, inr, refl, subst, Bool, true, false, ◌&&◌, List, [], ◌∷◌, Outcome, ok,
  panic, Ensures, Outcome-cases, bit_and, arith,
}
use trusted_gateway.Vqueue.Setup.{Mmu}
use trusted_gateway.Virtio.State.{Vdev, Mmio, has, features_ok}
use trusted_gateway.Virtio.Net.{virtio_net_set_status, virtio_net_reset, virtio_net_set_config}
use trusted_gateway.Virtio.Device.{
  virtio_notify_vector, virtio_set_status, reset_queues, virtio_reset, virtio_config_write,
  virtio_queue_set_rings, virtio_queue_set_num, virtio_queue_notify, virtio_set_features,
}
use trusted_gateway.Virtio.Mmio.{
  Register, register, register_write, queue_ready_write, status_write, settle, soft_reset,
  accept_features, vnic_handle_mmio_write, selected, wide, config_start,
}
use trusted_gateway.Virtio.Config.{Access, run}

-- The features are kept, or gone with a reset.
abbrev pub Sticky : ℕ → Vdev → Type 0
Sticky features d = (d.guest_features ≡ features) ⊎ ((d.guest_features ≡ 0) × (d.status ≡ 0))

reset_queues-Sticky :
    (d : Vdev)
    → Ensures
        (λ (d' : Vdev). (d'.guest_features ≡ d.guest_features) × (d'.status ≡ d.status))
        (reset_queues d)
unfolding reset_queues
reset_queues-Sticky d = ground arith

notify_vector-Sticky :
    (d : Vdev)
    → ((virtio_notify_vector d).guest_features ≡ d.guest_features)
      × ((virtio_notify_vector d).status ≡ d.status)
unfolding virtio_notify_vector
notify_vector-Sticky d = ground arith

reset-Sticky : (n : ℕ) (d : Vdev) → Ensures (Sticky n) (virtio_reset d)
unfolding virtio_reset
reset-Sticky n d =
    ground (arith, reset_queues-Sticky (virtio_notify_vector cleared), notify_vector-Sticky cleared)
  where
    cleared : Vdev
    cleared = record (virtio_net_reset (virtio_set_status d 0)) {
      started = false;
      guest_features = 0;
      queue_sel = 0;
      status = 0;
      isr = 0;
    }

set_status-Sticky : (d : Vdev) (v : ℕ) → (virtio_set_status d v).guest_features ≡ d.guest_features
unfolding virtio_set_status virtio_net_set_status
set_status-Sticky d v = ground arith

settle-Sticky :
    (n : ℕ) (m : Mmio) (d : Vdev)
    → d.guest_features ≡ n
    → Ensures (λ m'. Sticky n m'.vdev) (settle m d)
unfolding settle soft_reset
settle-Sticky n m d h = ground (arith, reset-Sticky n d)

unaccepted :
    (m : Mmio) (value : ℕ)
    → has m.vdev.status features_ok ≡ true
    → accept_features m value ≡ ok m.vdev
unfolding accept_features virtio_set_features
unaccepted m value h = ground arith

status-Sticky :
    (m : Mmio) (value : ℕ)
    → has m.vdev.status features_ok ≡ true
    → Ensures (λ m'. Sticky m.vdev.guest_features m'.vdev) (status_write m value)
unfolding status_write
status-Sticky m value h = rw (unaccepted m value h) (
    settle-Sticky m.vdev.guest_features m (virtio_set_status m.vdev (value % 256))
      (set_status-Sticky m.vdev (value % 256)))

abbrev Keeps : Mmio → Outcome Mmio → Type 0
Keeps m = Ensures (λ m'. Sticky m.vdev.guest_features m'.vdev)

set_num-Sticky :
    (d : Vdev) (n num : ℕ) → (virtio_queue_set_num d n num).guest_features ≡ d.guest_features
unfolding virtio_queue_set_num
set_num-Sticky d n num = ground arith

set_rings-Sticky :
    (mmu : Mmu) (d : Vdev) (n a b c : ℕ)
    → Ensures
        (λ (d' : Vdev). d'.guest_features ≡ d.guest_features)
        (virtio_queue_set_rings mmu d n a b c)
unfolding virtio_queue_set_rings
set_rings-Sticky mmu d n a b c = ground arith

notify-Sticky : (d : Vdev) (n : ℕ) → (virtio_queue_notify d n).guest_features ≡ d.guest_features
unfolding virtio_queue_notify
notify-Sticky d n = ground arith

queue_ready-Sticky : (mmu : Mmu) (m : Mmio) (value : ℕ) → Keeps m (queue_ready_write mmu m value)
unfolding queue_ready_write
queue_ready-Sticky mmu m value =
    let q = selected m in
    let renum = virtio_queue_set_num m.vdev m.vdev.queue_sel q.num in
    ground (
      arith,
      set_num-Sticky m.vdev m.vdev.queue_sel q.num,
      set_rings-Sticky mmu renum m.vdev.queue_sel (wide q.desc_high q.desc_low)
          (wide q.avail_high q.avail_low) (wide q.used_high q.used_low),
    )

config_write-Sticky :
    (d : Vdev) (o v size : ℕ)
    → Ensures (λ (d' : Vdev). d'.guest_features ≡ d.guest_features) (virtio_config_write d o v size)
unfolding virtio_config_write virtio_net_set_config
config_write-Sticky d o v size = ground arith

register_write-Sticky :
    (mmu : Mmu) (r : Register) (m : Mmio) (value : ℕ)
    → has m.vdev.status features_ok ≡ true
    → Keeps m (register_write mmu r m value)
unfolding register_write
register_write-Sticky mmu Register.device_features_sel m value h = inl refl
register_write-Sticky mmu Register.driver_features m value h = inl refl
register_write-Sticky mmu Register.driver_features_sel m value h = inl refl
register_write-Sticky mmu Register.queue_sel m value h = ground arith
register_write-Sticky mmu Register.queue_num m value h =
    inl (set_num-Sticky m.vdev m.vdev.queue_sel value)
register_write-Sticky mmu Register.queue_ready m value h = queue_ready-Sticky mmu m value
register_write-Sticky mmu Register.queue_notify m value h =
    ground (arith, notify-Sticky m.vdev value)
register_write-Sticky mmu Register.interrupt_ack m value h =
    inl (notify_vector-Sticky (record m.vdev { isr = bit_and m.vdev.isr (255 - value % 256) })).0
register_write-Sticky mmu Register.status m value h = status-Sticky m value h
register_write-Sticky mmu Register.desc_low m value h = inl refl
register_write-Sticky mmu Register.desc_high m value h = inl refl
register_write-Sticky mmu Register.avail_low m value h = inl refl
register_write-Sticky mmu Register.avail_high m value h = inl refl
register_write-Sticky mmu Register.used_low m value h = inl refl
register_write-Sticky mmu Register.used_high m value h = inl refl
register_write-Sticky mmu Register.not_writable m value h = inl refl

vnic_handle_mmio_write-Sticky :
    (mmu : Mmu) (m : Mmio) (offset value size : ℕ)
    → has m.vdev.status features_ok ≡ true
    → Ensures
        (λ (m' : Mmio). Sticky m.vdev.guest_features m'.vdev)
        (vnic_handle_mmio_write mmu m offset value size)
unfolding vnic_handle_mmio_write
vnic_handle_mmio_write-Sticky mmu m offset value size h = ground (
  arith,
  config_write-Sticky m.vdev (offset - config_start) value size,
  register_write-Sticky mmu (register offset) m value h,
)

abbrev held : (Mmio → Bool) → Outcome Mmio → Bool
held test (ok m) = test m
held test (panic e) = true

-- FEATURES_OK is set before each write of a run.
unfoldable pub ok_throughout : Mmu → List Access → Mmio → Bool
ok_throughout mmu [] m = true
ok_throughout mmu (a ∷ rest) m =
    has m.vdev.status features_ok
    && held (ok_throughout mmu rest) (vnic_handle_mmio_write mmu m a.offset a.value a.size)

-- A device that is reset has no FEATURES_OK, so the run is over.
reset_last :
    (mmu : Mmu) (accesses : List Access) (n : ℕ) (m : Mmio)
    → ok_throughout mmu accesses m ≡ true
    → (m.vdev.guest_features ≡ 0) × (m.vdev.status ≡ 0)
    → Ensures (λ m'. Sticky n m'.vdev) (run mmu accesses m)
unfolding run ok_throughout
reset_last mmu [] n m h z = inr z
reset_last mmu (a ∷ rest) n m h z = absurd (cc (rw z.1 at h))

-- In a run of writes of any length that does not panic, where FEATURES_OK is set before each write,
-- the negotiated features are the same at the end as at the start, or the device is left with none
-- and status 0, as after a reset.
pub run-Sticky :
    (mmu : Mmu) (accesses : List Access) (m : Mmio)
    → ok_throughout mmu accesses m ≡ true
    → Ensures (λ m'. Sticky m.vdev.guest_features m'.vdev) (run mmu accesses m)
unfolding run ok_throughout
run-Sticky mmu [] m h = inl refl
run-Sticky mmu (a ∷ rest) m h =
    elim (Outcome-cases (vnic_handle_mmio_write mmu m a.offset a.value a.size)) [
      | inr (x, e) ↦ rw e tt
      | inl (m', e) ↦
          let still : ok_throughout mmu rest m' ≡ true = ground (arith, rw e at h) in
          let now : has m.vdev.status features_ok ≡ true = ground (arith, h) in
          let kept = vnic_handle_mmio_write-Sticky mmu m a.offset a.value a.size now in
          rw e (elim (subst (Keeps m) e kept) [
            | inl same ↦
                subst (λ n. Ensures (λ c. Sticky n c.vdev) (run mmu rest m')) same
                  (run-Sticky mmu rest m' still)
            | inr z ↦ reset_last mmu rest m.vdev.guest_features m' still z
          ])
    ]
