-- ===== src/Tests/Arm.antt =====
-- The theorems about src/backend/arm64/ARM64Encoder.cpp at small inputs.
use lsm_toolchain.Prelude.{ℕ, length, ◌≡◌, refl, true, false, [], ◌∷◌, String, some, arith}
use lsm_toolchain.Ssa.{StaticType, Op, Value, BasicBlock, Function, make_var, make_const_num}
use lsm_toolchain.RegAlloc.Interval.{is_float}
use lsm_toolchain.Encode.{Patch}
use lsm_toolchain.Encode.Bytes.{word_at}
use lsm_toolchain.Arm.Emit.{
  Encoder, load_imm_words, emit_stack_store, emit_stack_load, emit_fpr_stack_store,
  emit_fpr_stack_load,
}
use lsm_toolchain.Arm.Program.{encode_program}
use lsm_toolchain.Arm.Words.{run, run-load_imm_words}
use lsm_toolchain.Arm.Slots.{read_word, general, half, slot_moves}

abbrev label_of : String → Value
label_of s = record {
  name = "";
  type = StaticType.string;
  is_constant = true;
  num = 0;
  float = 0;
  str = s;
}

-- `main`, whose first block branches back to itself while `x` is not zero
abbrev loop_block : BasicBlock
loop_block = record {
  label = "loop";
  instructions =
      record {
        op = Op.cond_branch;
        result = make_var "" StaticType.void;
        operands = make_var "x" StaticType.int64 ∷ label_of "loop" ∷ label_of "exit" ∷ [];
      }
      ∷ [];
  predecessors = [];
  successors = [];
}

abbrev exit_block : BasicBlock
exit_block = record {
  label = "exit";
  instructions =
      record {
        op = Op.return;
        result = make_var "" StaticType.void;
        operands = make_const_num 7 StaticType.int64 ∷ [];
      }
      ∷ [];
  predecessors = [];
  successors = [];
}

abbrev main_function : Function
main_function = record {
  name = "main";
  params = [];
  return_type = StaticType.int64;
  blocks = loop_block ∷ exit_block ∷ [];
  is_naked = false;
  is_inline = false;
}

abbrev fresh : Encoder
fresh = record {
  asm = record { bytes = []; blocks = []; patches = [] };
  stack_offsets = [];
  current_stack_offset = 0;
  frame_size = 0;
}

abbrev back : Patch
back = record { location = 16; label = "loop"; conditional = false }

-- `stp`, `mov`, `ldr`, `cbz` two words ahead, `b` two words back, `movz`, `ldp` and `ret`
main-code :
    encode_program (main_function ∷ []) fresh
    ≡ 0xfd ∷ 0x7b ∷ 0xa0 ∷ 0xa9 ∷ 0xfd ∷ 0x03 ∷ 0x00 ∷ 0x91 ∷ 0xe0 ∷ 0x07 ∷ 0x40 ∷ 0xf9 ∷ 0x40
      ∷ 0x00 ∷ 0x00 ∷ 0xb4 ∷ 0xfe ∷ 0xff ∷ 0xff ∷ 0x17 ∷ 0xe0 ∷ 0x00 ∷ 0x80 ∷ 0xd2 ∷ 0xfd ∷ 0x7b
      ∷ 0xe0 ∷ 0xa8 ∷ 0xc0 ∷ 0x03 ∷ 0x5f ∷ 0xd6 ∷ []
unfolding encode_program is_float
main-code = refl

run-load_imm_words_example :
    (after : ℕ → ℕ) × (run (load_imm_words 3 0x1234000000005678) (λ r. 0) ≡ some after)
    × (after 3 ≡ 0x1234000000005678)
    × (after 4 ≡ 0)
run-load_imm_words_example =
    run-load_imm_words 3 0x1234000000005678 4 (λ r. 0) (omega arith) (omega arith)
      (λ e. omega (arith, e))

slot_moves_example :
    let n = length fresh.asm.bytes in
    (read_word (word_at (emit_stack_store 2 24 fresh).asm.bytes n) ≡ some (general false 2 24))
    × (read_word (word_at (emit_stack_load 2 24 fresh).asm.bytes n) ≡ some (general true 2 24))
    × (read_word (word_at (emit_fpr_stack_store 2 24 fresh).asm.bytes n) ≡ some (half false 2 24))
    × (read_word (word_at (emit_fpr_stack_load 2 24 fresh).asm.bytes n) ≡ some (half true 2 24))
slot_moves_example = slot_moves 2 24 fresh (omega arith) (omega arith) refl
