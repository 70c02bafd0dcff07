-- ===== src/RegAlloc.antt =====
-- src/backend/regalloc: live intervals and register allocation.
pub mod Interval
pub mod Liveness
pub mod LinearScan
pub mod GraphColoring
pub mod Allocator
