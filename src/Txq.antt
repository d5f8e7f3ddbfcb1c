-- ===== src/Txq.antt =====
-- The transmit ring of the network card, fec_drivers/bstgw/imx_fec.c: `Ring` has the ring with its
-- submission and completion, `Slots` the slots in use, `Conserve` and `Burst` what becomes of the packets.
pub mod Ring
pub mod Slots
pub mod Conserve
pub mod Burst
mod Tests
