-- ===== src/Vqueue.antt =====
-- The virtqueues that the virtual NIC shares with the normal world: virtio-nic/vnic/src/vqueue.c
-- and the ring layout of virtio-nic/vnic/include/virtio/virtio_ring.h.
pub mod State
pub mod Setup
pub mod Avail
pub mod Used
pub mod Iovs
pub mod Layout
pub mod Corrupt
pub mod Chain
pub mod Rounds
pub mod Notify
pub mod Readable
mod Tests
