-- ===== src/Virtio/Features.antt =====
-- The negotiation of features, through the `STATUS` register.
use trusted_gateway.Prelude.{
  ℕ, zero, suc, ◌/◌, ◌≤◌, ◌≡◌, ◌⊎◌, inl, inr, refl, Bool, true, false, not, min, Outcome, ok, panic,
  negotiation, ◌==◌, bit_and, arith, Bool-cases,
}
use trusted_gateway.Prelude.Bits.{bit, bit-bit_and, bit_and-pow}
use trusted_gateway.Virtio.State.{Vdev, Mmio, has, features_ok, f_version_1}
use trusted_gateway.Virtio.Device.{virtio_set_features, virtio_set_features_nocheck}
use trusted_gateway.Virtio.Mmio.{
  vnic_handle_mmio_write, register_write, status_write, accept_features, wide,
}
use trusted_gateway.Vqueue.Setup.{Mmu}

has_version_1 : (a : ℕ) → has a f_version_1 ≡ not (bit 5 a == 0)
has_version_1 a = ground (arith, bit_and-pow 5 a)

bit_le : (i a : ℕ) → bit i a ≤ 1
bit_le zero a = omega arith
bit_le (suc i) a = bit_le i (a / 2)

-- What an offer of `val` ends in, at feature `i`. `VIRTIO_F_VERSION_1` is 32, which is used as the
-- mask of bit 5.
abbrev pub Negotiated : ℕ → Vdev → ℕ → Outcome (Bool × Vdev) → Type 0
Negotiated i d val (ok (accepted, d')) =
    ((has d.status features_ok ≡ true) × (accepted ≡ false) × (d' ≡ d))
    ⊎ ((has d.status features_ok ≡ false)
        × (bit 5 val ≡ 1)
        × (bit 5 d.host_features ≡ 1)
        × (d' ≡ record d { guest_features = d'.guest_features })
        × (bit i d'.guest_features ≡ min (bit i val) (bit i d.host_features)))
Negotiated i d val (panic e) =
    (has d.status features_ok ≡ false)
    × (min (bit 5 val) (bit 5 d.host_features) ≡ 0)
    × (e ≡ negotiation)

nocheck-Negotiated :
    (i : ℕ) (d : Vdev) (val : ℕ)
    → has d.status features_ok ≡ false
    → Negotiated i d val (virtio_set_features_nocheck d val)
unfolding virtio_set_features_nocheck
nocheck-Negotiated i d val h = elim (Bool-cases (has features f_version_1)) [
  | inl e ↦ rw e (
      inr (
        h,
        ground (arith, five, has_version_1 features, bit_le 5 val, bit_le 5 d.host_features),
        ground (arith, five, has_version_1 features, bit_le 5 val, bit_le 5 d.host_features),
        refl,
        bit-bit_and i val d.host_features,
      ))
  | inr e ↦ rw e (h, ground (arith, five, has_version_1 features), refl)
]
  where
    features : ℕ
    features = bit_and val d.host_features

    five : bit 5 features ≡ min (bit 5 val) (bit 5 d.host_features)
    five = bit-bit_and 5 val d.host_features

-- After FEATURES_OK an offer is refused and nothing changes. Before it the call returns only if bit
-- 5 is offered by both sides, and each feature is then negotiated exactly if both sides have it; the
-- call panics only if one of them lacks bit 5.
pub virtio_set_features-Negotiated :
    (i : ℕ) (d : Vdev) (val : ℕ) → Negotiated i d val (virtio_set_features d val)
unfolding virtio_set_features
virtio_set_features-Negotiated i d val = elim (Bool-cases (has d.status features_ok)) [
  | inl e ↦ rw e (inl (e, refl, refl))
  | inr e ↦ rw e (nocheck-Negotiated i d val e)
]

bit-wide : (high low : ℕ) → bit 5 (wide high low) ≡ bit 5 low
bit-wide high low = omega arith

-- A driver that sets FEATURES_OK for the first time and has not accepted feature 5 (the MAC) panics
-- the trusted side, whether or not it has accepted feature 32 (VERSION_1).
pub status-features_panic :
    (mmu : Mmu) (m : Mmio) (value : ℕ)
    → has m.vdev.status features_ok ≡ false
    → has value features_ok ≡ true
    → bit 5 (m.guest_features 0) ≡ 0
    → vnic_handle_mmio_write mmu m 0x070 value 4 ≡ panic negotiation
unfolding vnic_handle_mmio_write register_write status_write accept_features virtio_set_features
    virtio_set_features_nocheck
status-features_panic mmu m value fresh done mac = rw done (rw fresh (rw mute refl))
  where
    val : ℕ
    val = wide (m.guest_features 1) (m.guest_features 0)

    features : ℕ
    features = bit_and val m.vdev.host_features

    mute : has features f_version_1 ≡ false
    mute = ground (
      arith,
      has_version_1 features,
      bit-bit_and 5 val m.vdev.host_features,
      bit-wide (m.guest_features 1) (m.guest_features 0),
    )
