-- ===== src/Worker.antt =====
-- yaay-mt-runtime/src/worker.rs, one call at a time: a worker's choice of a target or a victim, and
-- its `spawn`, `defer` and `try_steal` on the local queues.
pub mod Peers
pub mod Targets
pub mod Calls
pub mod Spawns
pub mod Steals
pub mod Examples
