-- ===== src/Elf.antt =====
-- src/backend/linker/ELFBuilder.cpp: the bytes of an ELF file. Where the source throws for an empty
-- input, the result is `none`; opening the file is not modelled.
pub mod Fields
pub mod Segments
pub mod Entry
use lsm_toolchain.Prelude.{
  ℕ, zero, suc, ◌+◌, ◌*◌, ◌/◌, ◌%◌, ◌^◌, Option, none, some, List, [], ◌∷◌, ◌++◌, length,
}
use lsm_toolchain.Ssa.{ArchType}

-- The lowest `w` bytes of a number, as a packed little-endian field holds them.
abbrev pub le : ℕ → ℕ → List ℕ
le zero n = []
le (suc w) n = n % 256 ∷ le w (n / 256)

pub record Segment : Type 0 where
  pub type : ℕ
  pub flags : ℕ
  pub vaddr : ℕ
  pub bytes : List ℕ

-- `static_cast<uint32_t>`
abbrev pub to_u32 : ℕ → ℕ
to_u32 n = n % 2 ^ 32

-- `sizeof(Elf32_Ehdr)`
abbrev pub ehdr_size : ℕ
ehdr_size = 52

-- `sizeof(Elf32_Phdr)`
abbrev pub phdr_size : ℕ
phdr_size = 32

abbrev pub machine_of : ArchType → ℕ
machine_of ArchType.x86_32 = 3
machine_of _ = 62

abbrev pub ident : List ℕ
ident = 0x7f ∷ b'E' ∷ b'L' ∷ b'F' ∷ 1 ∷ 1 ∷ 1 ∷ 0 ∷ 0 ∷ 0 ∷ 0 ∷ 0 ∷ 0 ∷ 0 ∷ 0 ∷ 0 ∷ []

-- `Elf32_Ehdr`, field by field
unfoldable pub elf_header : ArchType → ℕ → ℕ → List ℕ
elf_header arch entry count =
    ident
    ++ (le 2 2
        ++ (le 2 (machine_of arch)
            ++ (le 4 1
                ++ (le 4 (to_u32 entry)
                    ++ (le 4 ehdr_size
                        ++ (le 4 0
                            ++ (le 4 0
                                ++ (le 2 ehdr_size
                                    ++ (le 2 phdr_size
                                        ++ (le 2 count ++ (le 2 0 ++ (le 2 0 ++ le 2 0))))))))))))

-- `Elf32_Phdr`, field by field, for a segment whose bytes start at `offset`
unfoldable pub program_header : Segment → ℕ → List ℕ
program_header s offset =
    le 4 s.type
    ++ (le 4 offset
        ++ (le 4 (to_u32 s.vaddr)
            ++ (le 4 (to_u32 s.vaddr)
                ++ (le 4 (to_u32 (length s.bytes))
                    ++ (le 4 (to_u32 (length s.bytes)) ++ (le 4 s.flags ++ le 4 0x1000))))))

-- the loop over the segments, from a `currentOffset` on
unfoldable pub program_headers : ℕ → List Segment → List ℕ
unfolding program_header
program_headers offset [] = []
program_headers offset (s ∷ ss) =
    program_header s offset ++ program_headers (to_u32 (offset + length s.bytes)) ss

abbrev pub contents : List Segment → List ℕ
contents [] = []
contents (s ∷ ss) = s.bytes ++ contents ss

unfoldable pub build_executable : List Segment → ℕ → ArchType → Option (List ℕ)
unfolding elf_header program_headers
build_executable [] entry arch = none
build_executable (s ∷ ss) entry arch =
    let segments = s ∷ ss in
    some (
      elf_header arch entry (length segments)
      ++ (program_headers (to_u32 (ehdr_size + phdr_size * length segments)) segments
          ++ contents segments))

abbrev pub base_vaddr : ℕ
base_vaddr = 0x100000

abbrev pub header_size : ℕ
header_size = ehdr_size + phdr_size

-- the Multiboot header, and the 64-bit start-up code behind it
abbrev pub prelude_64 : List ℕ
prelude_64 =
    0x02 ∷ 0xb0 ∷ 0xad ∷ 0x1b ∷ 0x00 ∷ 0x00 ∷ 0x00 ∷ 0x00 ∷ 0xfe ∷ 0x4f ∷ 0x52 ∷ 0xe4 ∷ 0xfa ∷ 0xbf
    ∷ 0x00 ∷ 0x00 ∷ 0x20 ∷ 0x00 ∷ 0xb9 ∷ 0x00 ∷ 0x0c ∷ 0x00 ∷ 0x00 ∷ 0x31 ∷ 0xc0 ∷ 0xf3 ∷ 0xab
    ∷ 0xc7 ∷ 0x05 ∷ 0x00 ∷ 0x00 ∷ 0x20 ∷ 0x00 ∷ 0x03 ∷ 0x10 ∷ 0x20 ∷ 0x00 ∷ 0xc7 ∷ 0x05 ∷ 0x00
    ∷ 0x10 ∷ 0x20 ∷ 0x00 ∷ 0x03 ∷ 0x20 ∷ 0x20 ∷ 0x00 ∷ 0xc7 ∷ 0x05 ∷ 0x00 ∷ 0x20 ∷ 0x20 ∷ 0x00
    ∷ 0x83 ∷ 0x00 ∷ 0x00 ∷ 0x00 ∷ 0xb8 ∷ 0x00 ∷ 0x00 ∷ 0x20 ∷ 0x00 ∷ 0x0f ∷ 0x22 ∷ 0xd8 ∷ 0x0f
    ∷ 0x20 ∷ 0xe0 ∷ 0x0d ∷ 0x20 ∷ 0x00 ∷ 0x00 ∷ 0x00 ∷ 0x0f ∷ 0x22 ∷ 0xe0 ∷ 0xb9 ∷ 0x80 ∷ 0x00
    ∷ 0x00 ∷ 0xc0 ∷ 0x0f ∷ 0x32 ∷ 0x0d ∷ 0x00 ∷ 0x01 ∷ 0x00 ∷ 0x00 ∷ 0x0f ∷ 0x30 ∷ 0x0f ∷ 0x20
    ∷ 0xc0 ∷ 0x0d ∷ 0x00 ∷ 0x00 ∷ 0x00 ∷ 0x80 ∷ 0x0f ∷ 0x22 ∷ 0xc0 ∷ 0x0f ∷ 0x01 ∷ 0x15 ∷ 0xf9
    ∷ 0x00 ∷ 0x10 ∷ 0x00 ∷ 0xea ∷ 0xc7 ∷ 0x00 ∷ 0x10 ∷ 0x00 ∷ 0x08 ∷ 0x00 ∷ 0x66 ∷ 0xb8 ∷ 0x10
    ∷ 0x00 ∷ 0x8e ∷ 0xd8 ∷ 0x8e ∷ 0xc0 ∷ 0x8e ∷ 0xe0 ∷ 0x8e ∷ 0xe8 ∷ 0x8e ∷ 0xd0 ∷ 0x48 ∷ 0xbc
    ∷ 0x00 ∷ 0x00 ∷ 0x30 ∷ 0x00 ∷ 0x00 ∷ 0x00 ∷ 0x00 ∷ 0x00 ∷ 0xeb ∷ 0x1e ∷ 0x00 ∷ 0x00 ∷ 0x00
    ∷ 0x00 ∷ 0x00 ∷ 0x00 ∷ 0x00 ∷ 0x00 ∷ 0x00 ∷ 0x00 ∷ 0x00 ∷ 0x00 ∷ 0x00 ∷ 0x98 ∷ 0x20 ∷ 0x00
    ∷ 0x00 ∷ 0x00 ∷ 0x00 ∷ 0x00 ∷ 0x00 ∷ 0x92 ∷ 0x00 ∷ 0x00 ∷ 0x17 ∷ 0x00 ∷ 0xe1 ∷ 0x00 ∷ 0x10
    ∷ 0x00 ∷ []

abbrev pub prelude_of : ArchType → List ℕ
prelude_of ArchType.x86_32 =
    0x02 ∷ 0xb0 ∷ 0xad ∷ 0x1b ∷ 0x00 ∷ 0x00 ∷ 0x00 ∷ 0x00 ∷ 0xfe ∷ 0x4f ∷ 0x52 ∷ 0xe4 ∷ []
prelude_of _ = prelude_64

unfoldable pub kernel_segment : List ℕ → ArchType → Segment
kernel_segment code arch = record {
  type = 1;
  flags = 7;
  vaddr = base_vaddr;
  bytes = prelude_of arch ++ code;
}

abbrev pub kernel_entry : ℕ
kernel_entry = base_vaddr + header_size + 12

-- `buildExecutable` of machine code alone
unfoldable pub build_kernel : List ℕ → ArchType → Option (List ℕ)
unfolding build_executable kernel_segment
build_kernel [] arch = none
build_kernel (b ∷ bs) arch = build_executable (kernel_segment (b ∷ bs) arch ∷ []) kernel_entry arch
