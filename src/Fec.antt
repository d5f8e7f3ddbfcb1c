-- ===== src/Fec.antt =====
-- The trusted side of the split FEC driver: the traps of fec_drivers/bstgw/nw_mmio_traps.c on the
-- normal world's register accesses, and the software steps of fec_drivers/bstgw/imx_fec.c that
-- they start.
pub mod State
pub mod Steps
pub mod Sequences
pub mod Traps
pub mod Invariant
pub mod Filter
pub mod Registers
pub mod Shutdown
mod Tests
