-- ===== src/X86.antt =====
-- src/backend/x86_64/X86_64Encoder.cpp, without the branches for Windows.
pub mod Emit
pub mod Instructions
pub mod Calls
pub mod Program
pub mod Operands
pub mod Sound
pub mod SoundOps
pub mod SoundProgram
pub mod Jumps
