-- ===== src/Loader.antt =====
-- src/loader/ModuleLoader.hpp
pub mod Paths
pub mod Load
pub mod Order
pub mod Steps
pub mod Ends
pub mod Cycles
pub mod Results
