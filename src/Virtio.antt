-- ===== src/Virtio.antt =====
-- The virtual NIC's VirtIO device and its MMIO transport: virtio-nic/vnic/src/virtio.c,
-- virtio-mmio.c, and the device part of virtio-net.c.
pub mod State
pub mod Net
pub mod Device
pub mod Mmio
pub mod Queues
pub mod Guards
pub mod Init
pub mod Fixed
pub mod Config
pub mod Features
pub mod Sticky
pub mod Emu
mod Tests
