-- ===== src/Napi/Slots.antt =====
-- Adding a NAPI to a device and removing it.
use trusted_gateway.Prelude.{ℕ, ◌<◌, ◌≡◌, ok, ==_refl, arith}
use trusted_gateway.Napi.Registry.{Device, max_netif_napi, netif_napi_add, netif_napi_del}

-- A NAPI that is added gets the first free slot of at most two; removing it gives back the device as
-- it was, in its count, its list of NAPIs and each slot.
pub netif_napi_del-add :
    (n : ℕ) (d : Device) (j : ℕ) {idx : ℕ} {d' : Device}
    → netif_napi_add n d ≡ ok (idx, d')
    → (idx < max_netif_napi)
      × (d'.napis idx ≡ n)
      × ((netif_napi_del n idx d').napi_count ≡ d.napi_count)
      × ((netif_napi_del n idx d').nq ≡ d.nq)
      × ((netif_napi_del n idx d').napis j ≡ d.napis j)
unfolding netif_napi_add netif_napi_del
netif_napi_del-add n d j e = ground (arith, ==_refl n, ==_refl d.napi_count)
