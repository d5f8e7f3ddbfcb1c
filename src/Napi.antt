-- ===== src/Napi.antt =====
-- The scheduling of the network workers: nettrug/napi/napi.c and napi.h, the wake-up check of
-- nettrug/napi/notifier.c, and the loop of `worker_run` in nettrug/pta/npf_router.c.
pub mod Ops
pub mod Registry
pub mod Worker
pub mod Wakeup
pub mod Slots
mod Tests
