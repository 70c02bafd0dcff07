-- ===== src/Elf/Entry.antt =====
-- src/backend/linker/ELFBuilder.cpp: the entry point of a 64-bit kernel.
use lsm_toolchain.Prelude.{
  ℕ, ◌+◌, ◌*◌, ◌^◌, ◌<◌, ◌≡◌, ap, some, List, [], ◌∷◌, ◌++◌, length, length-append, take, arith,
}
use lsm_toolchain.Ssa.{ArchType}
use lsm_toolchain.Elf.{
  ehdr_size, phdr_size, kernel_segment, kernel_entry, build_kernel, elf_header, prelude_64,
}
use lsm_toolchain.Elf.Fields.{drop, read}
use lsm_toolchain.Elf.Segments.{layout, segment_found, size}

kernel_fits :
    (b : ℕ) (bs : List ℕ)
    → length (b ∷ bs) < 2 ^ 31
    → ehdr_size + phdr_size * 1 + size (kernel_segment (b ∷ bs) ArchType.x86_64 ∷ []) < 2 ^ 32
unfolding kernel_segment
kernel_fits b bs lt = omega (arith, length-append bs [])

-- The file of a kernel for x86-64 holds the start-up code and the machine code behind it at the
-- offset that its one program header gives, and the header loads it at 0x100000; but the entry
-- address is the 96th byte after that, where the start-up code begins at the twelfth.
pub kernel_entry_late :
    (b : ℕ) (bs file : List ℕ)
    → build_kernel (b ∷ bs) ArchType.x86_64 ≡ some file
    → length (b ∷ bs) < 2 ^ 31
    → (take (length (prelude_64 ++ (b ∷ bs))) (drop (read 4 (drop 56 file)) file)
        ≡ prelude_64 ++ (b ∷ bs))
      × (read 4 (drop 60 file) ≡ 0x100000)
      × (read 4 (drop 24 file) ≡ read 4 (drop 60 file) + 96)
unfolding build_kernel kernel_segment
kernel_entry_late b bs file built lt =
    let (address, count, found) =
      segment_found [] (kernel_segment (b ∷ bs) ArchType.x86_64) [] kernel_entry ArchType.x86_64
        file built (kernel_fits b bs lt) in
    let s = kernel_segment (b ∷ bs) ArchType.x86_64 in
    let entry : read 4 (drop 24 file) ≡ 0x100060 =
      unfold elf_header in
      ap (λ f. read 4 (drop 24 f)) (layout (s ∷ []) kernel_entry ArchType.x86_64 file built) in
    (found, address, omega (arith, entry, address))
