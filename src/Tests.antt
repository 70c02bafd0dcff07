-- ===== src/Tests.antt =====
-- The theorems at concrete inputs.
mod Arenas
mod Regions
mod Utils
mod DeadCode
mod RegAlloc
mod Coloring
mod Loaders
mod Lexer
mod Elf
mod Peephole
mod X86
mod Arm
