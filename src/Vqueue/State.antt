-- ===== src/Vqueue/State.antt =====
-- `struct vqueue`, its buffers, and the ring memory that the normal world writes too.
use trusted_gateway.Prelude.{ℕ, ◌%◌, Bool, List}

-- A descriptor, as one call sees it. The other side can write between any two reads, so that each
-- read of a call has a field of its own: `addr` and `addr_again` are the two of `addr`, `len` and
-- `len_again` those of `len`, `f_write` and `f_next` those of the flags.
pub record Desc : Type 0 where
  pub addr : ℕ
  pub addr_again : ℕ
  pub len : ℕ
  pub len_again : ℕ
  pub f_write : Bool
  pub f_next : Bool
  pub next : ℕ

pub record UsedElem : Type 0 where
  pub id : ℕ
  pub len : ℕ

-- The shared memory, as one call sees it: the descriptor table, the available ring and the used ring.
-- `avail_idx_again` is what a second read of the available ring's index in the call gives.
pub record Ring : Type 0 where
  pub desc : ℕ → Desc
  pub avail_idx : ℕ
  pub avail_idx_again : ℕ
  pub avail_ring : ℕ → ℕ
  pub used_no_notify : Bool
  pub used_idx : ℕ
  pub used_ring : ℕ → UsedElem

-- `struct vqueue` with its `struct vring`. Addresses are numbers, NULL is 0. The locks, the
-- condition variable and the callbacks are left out.
pub record Vqueue : Type 0 where
  pub id : ℕ
  pub num : ℕ
  pub num_default : ℕ
  pub desc_ptr : ℕ
  pub avail_ptr : ℕ
  pub used_ptr : ℕ
  pub vring_addr : ℕ
  pub vring_sz : ℕ
  pub vring_align : ℕ
  pub last_avail_idx : ℕ

-- One used entry of `iovs` with its entry of `phys`.
pub record Iov : Type 0 where
  pub base : ℕ
  pub len : ℕ
  pub phys : ℕ

-- `struct vqueue_iovs`: `iovs` holds the entries below `used`.
pub record Iovs : Type 0 where
  pub cnt : ℕ
  pub used : ℕ
  pub len : ℕ
  pub iovs : List Iov

pub record Buf : Type 0 where
  pub head : ℕ
  pub in_iovs : Iovs
  pub out_iovs : Iovs

-- The codes of virtio-nic/vnic/src/internal/err.h that the queue returns; `failed` is -1.
pub data Status : Type 0 where
  no_error channel_closed not_enough_buffer not_valid too_big failed : Status

abbrev pub u16 : ℕ → ℕ
u16 n = n % 0x10000

abbrev pub u32 : ℕ → ℕ
u32 n = n % 0x100000000
