-- ===== src/Virtio/Init.antt =====
-- The device as `vnic_init` of vnic.c sets it up.
use trusted_gateway.Prelude.{ℕ, ◌^◌, false, [], ◌∷◌, bit_or}
use trusted_gateway.Vqueue.State.{Ring}
use trusted_gateway.Vqueue.Setup.{vqueue_init}
use trusted_gateway.Napi.Ops.{napi_instance_setup, napi_added, Napi}
use trusted_gateway.Virtio.State.{Vnet, Vdev, Mmio, MmioQueue, vq_max_size}
use trusted_gateway.Virtio.Net.{netcfg, netcfg_size}

abbrev pub virtio_add_feature : ℕ → ℕ → ℕ
virtio_add_feature features fbit = bit_or features (2 ^ fbit)

-- VERSION_1, MTU, MAC and STATUS.
unfoldable pub vnic_vdev_init_feature_bits : ℕ
vnic_vdev_init_feature_bits =
    virtio_add_feature (virtio_add_feature (virtio_add_feature (virtio_add_feature 0 32) 3) 5) 16

unfoldable pub vnic_init_config : Vnet
vnic_init_config = record {
  mac = 0x00 ∷ 0x19 ∷ 0xb8 ∷ 0x08 ∷ 0x40 ∷ 0x78 ∷ [];
  status = 1;
  mtu = 1500;
  config_size = netcfg_size;
}

-- The interface's NAPI is added, which leaves it disabled, and then enabled.
abbrev pub vnic_napi : Napi
unfolding napi_instance_setup napi_added
vnic_napi = record (napi_added napi_instance_setup) { disable = false }

unfoldable pub vnic_vdev_init : (ℕ → Ring) → Vdev
unfolding vnic_vdev_init_feature_bits vnic_init_config
vnic_vdev_init mem = record {
  status = 0;
  isr = 0;
  queue_sel = 0;
  guest_features = 0;
  host_features = vnic_vdev_init_feature_bits;
  config = netcfg vnic_init_config;
  config_len = netcfg_size;
  generation = 0;
  device_id = 0x1;
  started = false;
  vq = λ i. vqueue_init i vq_max_size 0x1000;
  rings = mem;
  vnet = vnic_init_config;
  napi = vnic_napi;
  raised = 0;
}

abbrev pub empty_queue : MmioQueue
empty_queue = record {
  num = 0;
  enabled = false;
  desc_low = 0;
  desc_high = 0;
  avail_low = 0;
  avail_high = 0;
  used_low = 0;
  used_high = 0;
}

unfoldable pub vnic_init : (ℕ → Ring) → Mmio
unfolding vnic_vdev_init
vnic_init mem = record {
  vdev = vnic_vdev_init mem;
  host_features_sel = 0;
  guest_features_sel = 0;
  guest_features = λ i. 0;
  vqs = λ i. empty_queue;
}
