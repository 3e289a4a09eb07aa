-- ===== src/Rng.antt =====
-- yaay-mt-runtime/src/rng.rs: the generator that picks victims and targets.
pub mod Defs
mod LowBits
pub mod Examples
pub use LowBits.*
