-- ===== src/Virtio/State.antt =====
-- `vdev_t`, `mmio_t` and the part of `vnet_t` that the device's registers show.
use trusted_gateway.Prelude.{ℕ, Bool, not, List, if◌then◌else◌, ◌==◌, bit_and}
use trusted_gateway.Vqueue.State.{Vqueue, Ring}
use trusted_gateway.Napi.Ops.{Napi}

-- `vnet_t`: the MAC address, the link status, the MTU and the size of the configuration space.
pub record Vnet : Type 0 where
  pub mac : List ℕ
  pub status : ℕ
  pub mtu : ℕ
  pub config_size : ℕ

-- `vdev_t` with the NAPI that it schedules, the memory of its two rings, and how often it has raised
-- its interrupt.
pub record Vdev : Type 0 where
  pub status : ℕ
  pub isr : ℕ
  pub queue_sel : ℕ
  pub guest_features : ℕ
  pub host_features : ℕ
  pub config : List ℕ
  pub config_len : ℕ
  pub generation : ℕ
  pub device_id : ℕ
  pub started : Bool
  pub vq : ℕ → Vqueue
  pub rings : ℕ → Ring
  pub vnet : Vnet
  pub napi : Napi
  pub raised : ℕ

-- `VirtIOMMIOQueue`
pub record MmioQueue : Type 0 where
  pub num : ℕ
  pub enabled : Bool
  pub desc_low : ℕ
  pub desc_high : ℕ
  pub avail_low : ℕ
  pub avail_high : ℕ
  pub used_low : ℕ
  pub used_high : ℕ

pub record Mmio : Type 0 where
  pub vdev : Vdev
  pub host_features_sel : ℕ
  pub guest_features_sel : ℕ
  pub guest_features : ℕ → ℕ
  pub vqs : ℕ → MmioQueue

-- The table with another entry at `i`.
abbrev pub at {ℓ} : {A : Type ℓ} → (ℕ → A) → ℕ → A → ℕ → A
at f i a j = if i == j then a else f j

abbrev pub queue_max : ℕ
queue_max = 2

abbrev pub vq_max_size : ℕ
vq_max_size = 256

-- Status bits and the feature constant, as virtio_config.h defines them.
abbrev pub driver_ok : ℕ
driver_ok = 4

abbrev pub features_ok : ℕ
features_ok = 8

abbrev pub f_version_1 : ℕ
f_version_1 = 32

abbrev pub has : ℕ → ℕ → Bool
has n mask = not (bit_and n mask == 0)

abbrev pub u64_mod : ℕ
u64_mod = 0x10000000000000000

abbrev pub u32_mod : ℕ
u32_mod = 0x100000000
