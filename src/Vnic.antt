-- ===== src/Vnic.antt =====
-- The data path of the virtual network card, virtio-nic/vnic/src/virtio-net.c and vnic.c: packets
-- between the rings that the normal world shares and the router. `Frames` has the packets and what
-- the outside contributes, `FlushTx` and `Receive` the two directions, `Poll` their composition.
pub mod Frames
pub mod FlushTx
pub mod Ownership
pub mod Delivered
pub mod Passed
pub mod Overrun
pub mod Receive
pub mod Consumed
pub mod Handed
pub mod Poll
pub mod Complete
pub mod Asleep
pub mod Spins
pub mod Tests
mod PollTests
