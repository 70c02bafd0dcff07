-- ===== src/Arm/Jumps.antt =====
-- src/backend/arm64/ARM64Encoder.cpp: where the branches of an encoded program lead.
use lsm_toolchain.Prelude.{ℕ, Bool, if◌then◌else◌, ◌+◌, ◌*◌, ◌/◌, ◌%◌, ◌^◌}

-- What the processor reads in a branch: the distance in instructions of four bytes, in the 19 bits
-- of a conditional branch or the 26 bits of another, counted from the branch; and the size modulo
-- which it is read, as the distance is signed.
abbrev pub target_of : Bool → ℕ → ℕ → ℕ
target_of conditional w location =
    if conditional then w / 2 ^ 5 % 2 ^ 19 * 4 + location else w % 2 ^ 26 * 4 + location

abbrev pub reach : Bool → ℕ
reach conditional = if conditional then 2 ^ 21 else 2 ^ 28

-- The bits of a branch outside its distance: 24 to 31 and 0 to 4 of a conditional branch, 26 to 31
-- of another.
abbrev pub opcode_of : Bool → ℕ → ℕ × ℕ
opcode_of conditional w = if conditional then (w / 2 ^ 24, w % 2 ^ 5) else (w / 2 ^ 26, 0)
