-- ===== src/Tests/X86.antt =====
-- The theorems about src/backend/x86_64/X86_64Encoder.cpp at small inputs.
use lsm_toolchain.Prelude.{
  ◌+◌, ◌-◌, ◌%◌, ◌^◌, ◌≡◌, refl, inl, true, false, [], ◌∷◌, String, some, length, arith,
}
use lsm_toolchain.Ssa.{StaticType, Op, Value, BasicBlock, Function, make_var, make_const_num}
use lsm_toolchain.RegAlloc.Interval.{is_float}
use lsm_toolchain.Encode.{Patch}
use lsm_toolchain.Encode.Bytes.{byte_at, word_at}
use lsm_toolchain.X86.Emit.{Encoder, stack_move}
use lsm_toolchain.X86.Program.{encoded, encode_program}
use lsm_toolchain.X86.Operands.{read_move, read_move-stack_move}
use lsm_toolchain.X86.Jumps.{jumps_land}

abbrev label_of : String → Value
label_of s = record {
  name = "";
  type = StaticType.string;
  is_constant = true;
  num = 0;
  float = 0;
  str = s;
}

abbrev nothing : Value
nothing = make_var "" StaticType.void

-- `main`, whose first block adds and jumps to the second, which returns
abbrev entry_block : BasicBlock
entry_block = record {
  label = "entry";
  instructions =
      record {
        op = Op.add;
        result = make_var "x" StaticType.int64;
        operands = make_const_num 1 StaticType.int64 ∷ make_var "y" StaticType.int64 ∷ [];
      }
      ∷ record { op = Op.branch; result = nothing; operands = label_of "exit" ∷ [] }
      ∷ [];
  predecessors = [];
  successors = [];
}

abbrev exit_block : BasicBlock
exit_block = record {
  label = "exit";
  instructions =
      record { op = Op.return; result = nothing; operands = make_var "x" StaticType.int64 ∷ [] }
      ∷ [];
  predecessors = [];
  successors = [];
}

abbrev main_function : Function
main_function = record {
  name = "main";
  params = [];
  return_type = StaticType.int64;
  blocks = entry_block ∷ exit_block ∷ [];
  is_naked = false;
  is_inline = false;
}

abbrev fresh : Encoder
fresh = record {
  asm = record { bytes = []; blocks = []; patches = [] };
  stack_offsets = [];
  array_base_offsets = [];
  current_stack_offset = 0;
  string_pool = [];
  external_symbols = [];
}

abbrev jump : Patch
jump = record { location = 33; label = "exit"; conditional = false }

main-code :
    encode_program (λ pool. 0) (λ name. 0) (main_function ∷ []) fresh
    ≡ 0x55 ∷ 0x48 ∷ 0x89 ∷ 0xe5 ∷ 0x48 ∷ 0x81 ∷ 0xec ∷ 0 ∷ 0x20 ∷ 0 ∷ 0 ∷ 0x48 ∷ 0xb8 ∷ 1 ∷ 0 ∷ 0
      ∷ 0 ∷ 0 ∷ 0 ∷ 0 ∷ 0 ∷ 0x48 ∷ 0x8b ∷ 0x4d ∷ 0xf8 ∷ 0x48 ∷ 0x01 ∷ 0xc8 ∷ 0x48 ∷ 0x89 ∷ 0x45
      ∷ 0xf0 ∷ 0xe9 ∷ 0 ∷ 0 ∷ 0 ∷ 0 ∷ 0x48 ∷ 0x8b ∷ 0x45 ∷ 0xf0 ∷ 0x48 ∷ 0x89 ∷ 0xec ∷ 0x5d ∷ 0xc3
      ∷ []
unfolding encode_program is_float
main-code = refl

jumps_land_example :
    ((word_at (encode_program (λ pool. 0) (λ name. 0) (main_function ∷ []) fresh) 33 + 33 + 4)
        % 2 ^ 32
      ≡ 37)
    × (byte_at (encode_program (λ pool. 0) (λ name. 0) (main_function ∷ []) fresh) 32
        ≡ byte_at (encoded (λ pool. 0) (λ name. 0) (main_function ∷ []) fresh).asm.bytes 32)
    × (length (encode_program (λ pool. 0) (λ name. 0) (main_function ∷ []) fresh)
        ≡ length (encoded (λ pool. 0) (λ name. 0) (main_function ∷ []) fresh).asm.bytes)
unfolding encoded is_float
jumps_land_example =
    jumps_land (λ pool. 0) (λ name. 0) (main_function ∷ []) fresh jump 37 32 (inl refl) refl
      (inl (omega arith), tt)

read_move-stack_move_example :
    read_move (stack_move 0x8b 11 (2 ^ 32 - 8)) ≡ some (0x8b, 11, 4294967288)
read_move-stack_move_example = read_move-stack_move 0x8b 11 (2 ^ 32 - 8) (omega arith) (omega arith)
