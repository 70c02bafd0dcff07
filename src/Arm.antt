-- ===== src/Arm.antt =====
-- src/backend/arm64/ARM64Encoder.cpp.
pub mod Emit
pub mod Instructions
pub mod Program
pub mod Words
pub mod Slots
pub mod Sound
pub mod SoundProgram
pub mod Jumps
