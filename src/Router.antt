-- ===== src/Router.antt =====
-- The router, nettrug/pta/worker.c and arp.c. The way in: `Net` has the interfaces and packets,
-- `Resolve` and `Arp` the address resolution, `Input` the routing of a burst. The way out, over the
-- queues of `Pktq`: `Egress`.
pub mod Egress
pub mod Flow
pub mod Net
pub mod Resolve
pub mod Arp
pub mod Input
pub mod Held
pub mod Requests
pub mod Process
pub mod Batches
pub mod Conserve
pub mod Lost
pub mod Answers
pub mod Learned
mod Tests
mod Passage
