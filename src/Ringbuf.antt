-- ===== src/Ringbuf.antt =====
-- The byte ring between the configuration service's two worlds: configservice/ta/ringbuffer.c.
pub mod Ops
pub mod Copies
pub mod Fifo
pub mod Puts
pub mod Reads
mod Tests
