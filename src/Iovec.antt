-- ===== src/Iovec.antt =====
-- The vectors of buffers in the normal world's memory, virtio-nic/vnic/src/iovec.c: `Ops` has the
-- four copies, `Gather`, `Skip` and `Scatter` what they
-- copy, `Tests` runs them.
pub mod Ops
pub mod Gather
pub mod Skip
pub mod Scatter
pub mod Tests
