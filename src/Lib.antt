-- ===== src/Lib.antt =====
-- The LSM toolchain: a compiler for the language LSM, with the allocators it is built on, and the
-- passes between its parser and its machine code.
--
-- The program. Source text goes through a lexer and a parser to a syntax tree; the type checker
-- and the monomorphizer work on the tree, and the SSA builder lowers it to functions of blocks of
-- instructions (src/middleend/ssa). Passes over these (src/middleend/opt) rewrite a function in
-- place. A back end (src/backend) gives the values registers or stack slots and encodes the
-- instructions. All of it takes memory from arenas and regions (src/core).
--
-- The files, and what they model:
--   Prelude            numbers, Boolean tests, lists, membership, bits, permutations
--   Core/Arena         src/core/Arena.hpp: an arena is a record of addresses and sizes; a method
--                      takes the arena and returns its result with the arena after the call.
--                      `free` is the list of the blocks a call hands to it, and memory is a
--                      function from addresses to bytes.
--   Core/Region        src/core/Region.hpp: a region with its slab free lists, whose links are the
--                      words in the freed chunks; a region stands before its ancestors in a list
--   Core/Utils         src/core/Utils.hpp: alignment, powers of two, FNV-1a, and the intern pool, whose
--                      strings have addresses
--   Lexer              src/frontend/lexer and src/frontend/Token.hpp: a cursor is the position with
--                      the rest of the source; each kind of token is a function from cursor to
--                      cursor, and the keywords and operators are tables in the source's order
--   Ssa                src/middleend/ssa/SSAInstruction.hpp, and in Ssa/Machine an abstract
--                      machine that a block of instructions runs on
--   Opt/DeadCode       src/middleend/opt/DeadCodeElim.hpp
--   RegAlloc/Interval  the intervals of src/backend/regalloc/LivenessAnalyzer.hpp
--   RegAlloc/LinearScan  src/backend/regalloc/LinearScanAllocator.hpp
--   RegAlloc/Liveness  `computeIntervals` of src/backend/regalloc/LivenessAnalyzer.hpp: the maps are
--                      lists of entries
--   RegAlloc/GraphColoring  src/backend/regalloc/GraphColoring.hpp: the graph is a list of nodes
--   RegAlloc/Allocator  src/backend/regalloc/RegisterAllocator.hpp: the analysis and an allocator
--   Loader             src/loader/ModuleLoader.hpp: Loader/Paths searches a module's file, Loader/Load
--                      is `loadAndMerge`, whose outcome is the loader or an error with the loader
--   Elf                src/backend/linker/ELFBuilder.cpp: the file as a list of bytes
--   Encode             what the encoders of src/backend share: code with labels and jump patches
--   X86                src/backend/x86_64/X86_64Encoder.cpp, without its branches for Windows: an
--                      encoder is a record, and a step is a function on it; steps are chained
--                      by `>>` as the calls follow one another
--   Arm                src/backend/arm64/ARM64Encoder.cpp, in the same way; an instruction is a number
--                      below 2^32
--   Peephole           src/backend/x86_64/PeepholeX86.hpp: code as a list of bytes
--   Tests              the theorems at concrete inputs
--
-- Conventions. A `size_t` or an address is a natural number with its wrap-around at 2^64 written
-- out. Integer and floating-point constants of the SSA are bit patterns. A vector is a list, and a
-- vector of objects that others point into is a function of the index. An `unordered_map` is an
-- association list, or a list of the keys where only membership is asked.
--
-- Parameters. The file system, and the lexer's errors and the parser where modules are loaded, are
-- functions of a path or a text. `malloc` is the address that it returns, and the place of a string
-- that enters the intern pool is an address too. `std::sort` is a function on lists, and so is the order in which an `unordered_map` is walked; what is relied on
-- is that they permute. The abstract machine has the meaning of each operation as a parameter,
-- with the operations that the pass takes to be free of side effects changing nothing but their
-- result.
--
-- Loops and fuel. The loop of dead code elimination runs on fuel: every round but the last erases
-- an instruction, so one round more than there are instructions is enough. The loops of the lexer
-- over tokens and over blanks run on fuel too: a round takes at least one byte, so one round more
-- than the bytes that are left is enough. The loop of graph colouring that removes the nodes runs
-- on as much fuel as there are nodes, as each round removes one, when no name is empty.
-- `loadAndMerge` runs on fuel for the depth of its calls: each call visits one more file, so one
-- more than there are files is enough. All other loops are structural recursion over a list or an
-- index.
--
-- Not modelled: the parser, the syntax tree and the checks on it, the SSA builder, the other
-- passes, the bare-metal encoders, the task runtime, and the parts that are calls of the operating
-- system.
pub mod Prelude
pub mod Core
pub mod Ssa
pub mod Opt
pub mod Tests
pub mod RegAlloc
pub mod Loader
pub mod Lexer
pub mod Elf
pub mod Peephole
pub mod Encode
pub mod X86
pub mod Arm
