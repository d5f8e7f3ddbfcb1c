-- ===== src/Pktq.antt =====
-- The egress packet queues of the interfaces: nettrug/pta/bstgw_pktq.h and the start and stop of a
-- queue in nettrug/pta/bstgw_netif_utils.h.
pub mod Ops
pub mod Contents
pub mod Refine
pub mod Burst
mod Tests
