-- ===== src/Core.antt =====
-- The toolchain's core (src/core): allocators, hashing and interning.
pub mod Utils
pub mod Arena
pub mod Region
