-- ===== src/Vnic/Frames.antt =====
-- Packet buffers by their identity, and the steps of the data path that both directions share.
use trusted_gateway.Prelude.{ℕ, List, [], ◌∷◌, Option, none, some, Outcome, panic, bad_ring}
use trusted_gateway.Vqueue.State.{Ring, Vqueue, Iovs, Buf, Status}
use trusted_gateway.Vqueue.Avail.{vqueue_get_avail_buf}
use trusted_gateway.Ethbuf.Data.{Ethbuf}

-- A packet buffer of the pool, `bstgw_ethbuf_t`.
pub record Frame : Type 0 where
  pub id : ℕ
  pub eb : Ethbuf

abbrev pub ids : List Frame → List ℕ
ids [] = []
ids (f ∷ fs) = f.id ∷ ids fs

-- `sizeof(struct virtio_net_hdr_v1)`
abbrev pub hdr_len : ℕ
hdr_len = 12

-- `memset(&buf, 0, ...)` and the room for its entries.
abbrev pub with_room : ℕ → Iovs
with_room cnt = record { cnt = cnt; used = 0; len = 0; iovs = [] }

-- The call ends (`vqueue_get_avail_buf-ne-none`), so that `none` does not occur.
abbrev pub ended_call {ℓ} : {A : Type ℓ} → Option (Outcome A) → Outcome A
ended_call none = panic bad_ring
ended_call (some o) = o

unfoldable pub get_avail_buf : Ring → Vqueue → Buf → Outcome (Status × Buf × Vqueue)
get_avail_buf ring vq b = ended_call (vqueue_get_avail_buf ring vq b)
