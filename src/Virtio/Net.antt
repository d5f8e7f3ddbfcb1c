-- ===== src/Virtio/Net.antt =====
-- What virtio-net.c does for the device's registers.
use trusted_gateway.Prelude.{
  ℕ, ◌/◌, ◌%◌, Bool, ◌&&◌, List, [], ◌∷◌, ◌++◌, Outcome, ok, panic, bad_argument, if◌then◌else◌,
  ◌!=◌,
}
use trusted_gateway.Napi.Ops.{napi_schedule}
use trusted_gateway.Virtio.State.{Vnet, Vdev, has, driver_ok}

abbrev pub le16 : ℕ → List ℕ
le16 n = (n % 256) ∷ (n / 256 % 256) ∷ []

-- The packed `struct virtio_net_config`: MAC, status, number of queue pairs, MTU.
unfoldable pub netcfg : Vnet → List ℕ
netcfg n = n.mac ++ (le16 n.status ++ (le16 1 ++ le16 n.mtu))

abbrev pub netcfg_size : ℕ
netcfg_size = 12

unfoldable pub virtio_net_get_config : Vdev → Outcome Vdev
virtio_net_get_config d =
    if d.vnet.config_size != netcfg_size
    then panic bad_argument
    else ok (record d { config = netcfg d.vnet })

unfoldable pub virtio_net_set_config : Vdev → Vdev
virtio_net_set_config d = d

unfoldable pub virtio_net_started : Vnet → ℕ → Bool
virtio_net_started n status = has status driver_ok && has n.status 1

unfoldable pub virtio_net_set_status : Vdev → ℕ → Vdev
unfolding virtio_net_started
virtio_net_set_status d status =
    if virtio_net_started d.vnet status then record d { napi = napi_schedule d.napi } else d

unfoldable pub virtio_net_reset : Vdev → Vdev
virtio_net_reset d = d
