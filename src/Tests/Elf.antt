-- ===== src/Tests/Elf.antt =====
-- The theorems about src/backend/linker/ELFBuilder.cpp at small inputs.
use lsm_toolchain.Prelude.{
  ℕ, ◌+◌, ◌≡◌, refl, Option, some, none, List, [], ◌∷◌, ◌++◌, length, take, arith,
}
use lsm_toolchain.Ssa.{ArchType}
use lsm_toolchain.Elf.{Segment, build_executable, build_kernel, prelude_64}
use lsm_toolchain.Elf.Fields.{drop, read}
use lsm_toolchain.Elf.Segments.{segment_found}
use lsm_toolchain.Elf.Entry.{kernel_entry_late}

abbrev text : Segment
text = record { type = 1; flags = 5; vaddr = 0x400000; bytes = 0x90 ∷ 0xc3 ∷ [] }

abbrev constants : Segment
constants = record { type = 1; flags = 4; vaddr = 0x500000; bytes = 7 ∷ 8 ∷ 9 ∷ [] }

abbrev bytes_of : Option (List ℕ) → List ℕ
bytes_of none = []
bytes_of (some xs) = xs

abbrev file : List ℕ
file = bytes_of (build_executable (text ∷ constants ∷ []) 0x400000 ArchType.x86_32)

file-built : build_executable (text ∷ constants ∷ []) 0x400000 ArchType.x86_32 ≡ some file
unfolding build_executable
file-built = refl

segment_found_example :
    (read 4 (drop 92 file) ≡ 0x500000)
    × (read 4 (drop 100 file) ≡ 3)
    × (take 3 (drop (read 4 (drop 88 file)) file) ≡ 7 ∷ 8 ∷ 9 ∷ [])
segment_found_example =
    segment_found (text ∷ []) constants [] 0x400000 ArchType.x86_32 file file-built (omega arith)

abbrev kernel : List ℕ
kernel = bytes_of (build_kernel (0xf4 ∷ []) ArchType.x86_64)

kernel-built : build_kernel (0xf4 ∷ []) ArchType.x86_64 ≡ some kernel
unfolding build_kernel
kernel-built = refl

kernel_entry_late_example :
    (take (length (prelude_64 ++ (0xf4 ∷ []))) (drop (read 4 (drop 56 kernel)) kernel)
      ≡ prelude_64 ++ (0xf4 ∷ []))
    × (read 4 (drop 60 kernel) ≡ 0x100000)
    × (read 4 (drop 24 kernel) ≡ read 4 (drop 60 kernel) + 96)
kernel_entry_late_example = kernel_entry_late 0xf4 [] kernel kernel-built (omega arith)
