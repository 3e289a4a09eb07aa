-- ===== src/Epoch.antt =====
-- yaay-mt-runtime/src/epoch.rs: the status word with its two counters, and the protocol by which
-- workers go to sleep and are woken.
pub mod Defs
pub mod Fields
pub mod Examples
