-- ===== src/Napi/Registry.antt =====
-- `netif_napi_add` and `netif_napi_del`: the slots of a device and the list of all NAPIs. A NAPI is
-- named by a number other than 0, which stands for NULL.
use trusted_gateway.Prelude.{
  ℕ, ◌+◌, ◌-◌, List, [], ◌∷◌, Outcome, ok, panic, bad_argument, if◌then◌else◌, ◌==◌, ◌!=◌, leb,
}

abbrev pub max_netif_napi : ℕ
max_netif_napi = 2

pub record Device : Type 0 where
  pub napi_count : ℕ
  pub napis : ℕ → ℕ
  pub nq : List ℕ

abbrev pub put : (ℕ → ℕ) → ℕ → ℕ → ℕ → ℕ
put f i x j = if i == j then x else f j

-- The result is the NAPI's index in the device.
unfoldable pub netif_napi_add : ℕ → Device → Outcome (ℕ × Device)
netif_napi_add n d =
    if leb max_netif_napi d.napi_count
    then panic bad_argument
    else (if d.napis d.napi_count != 0
        then panic bad_argument
        else ok (
          d.napi_count,
          record d {
            napis = put d.napis d.napi_count n;
            napi_count = d.napi_count + 1;
            nq = n ∷ d.nq;
          },
        ))

-- `SLIST_REMOVE`
abbrev pub remove : ℕ → List ℕ → List ℕ
remove n [] = []
remove n (m ∷ ms) = if m == n then ms else m ∷ remove n ms

unfoldable pub netif_napi_del : ℕ → ℕ → Device → Device
netif_napi_del n idx d = record d {
  nq = remove n d.nq;
  napi_count = d.napi_count - 1;
  napis = put d.napis idx 0;
}
