-- ===== src/Ethbuf.antt =====
-- Packet buffers and their pool: nettrug/pta/bstgw_eth_buf.c.
pub mod Pool
pub mod Owners
pub mod Data
pub mod Bytes
mod Tests
