-- ===== src/Pta.antt =====
-- The router's entry points for the normal world and for trusted applications,
-- nettrug/pta/trust_router.c, with the binding of sessions to workers of nettrug/pta/npf_router.c.
-- `Sessions` opens and closes sessions, `Commands` has the commands.
pub mod Sessions
pub mod Commands
pub mod Access
pub mod Exclusive
mod Tests
