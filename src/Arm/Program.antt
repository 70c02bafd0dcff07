-- ===== src/Arm/Program.antt =====
-- src/backend/arm64/ARM64Encoder.cpp: functions and programs.
use lsm_toolchain.Prelude.{
  ℕ, ◌+◌, ◌-◌, ◌*◌, ◌/◌, ◌%◌, ◌^◌, bit_or, List, [], ◌∷◌, String, ltb, if◌then◌else◌,
}
use lsm_toolchain.Ssa.{StaticType, Instruction, BasicBlock, Function}
use lsm_toolchain.RegAlloc.Interval.{is_float}
use lsm_toolchain.Elf.{le}
use lsm_toolchain.Encode.{Patch, mark, ◌>>◌, when, patch_all, append_bytes, append_jump, write_at}
use lsm_toolchain.Encode.Bytes.{word_at}
use lsm_toolchain.X86.Program.{arranged}
use lsm_toolchain.Arm.Emit.{
  Encoder, emit_inst, emit_words, emit_branch, get_stack_offset, at_slot, stack_word,
  emit_stack_store, emit_stack_load, emit_fpr_stack_store, emit_fpr_stack_load, wide_word,
  keep_word, load_imm_words, emit_load_imm, emit_value_load, emit_fpr_value_load,
}
use lsm_toolchain.Arm.Instructions.{
  arm_register_code, store_result, load_operands, encode_arith, encode_div, encode_mod,
  encode_set_register, encode_get_register, encode_volatile_load, encode_volatile_store,
  encode_cond_branch, load_argument, load_arguments, store_call_result, encode_call, load_return,
  leave, encode_return, encode_op, encode_instruction,
}

unfoldable pub mark_here : String → Encoder → Encoder
mark_here l e = record e { asm = mark l e.asm }

-- the offset of a parameter, then its store
unfoldable pub store_param : ℕ → String × StaticType → Encoder → Encoder
store_param k (name, t) =
    at_slot name (λ o. if is_float t then emit_fpr_stack_store k o else emit_stack_store k o)

unfoldable pub store_params : ℕ → List (String × StaticType) → Encoder → Encoder
unfolding store_param
store_params k [] e = e
store_params k (p ∷ ps) e = store_params (k + 1) ps (when (ltb k 8) (store_param k p) e)

-- the state at the begin of a function, with `currentFrameSize`
unfoldable pub fresh_frame : Encoder → Encoder
fresh_frame e = record e { stack_offsets = []; current_stack_offset = 0; frame_size = 512 }

-- `stp x29, x30, [sp, #-frame]!`, whose immediate is `-frame / 8` in seven bits, and `mov x29, sp`
unfoldable pub enter : Encoder → Encoder
enter e =
    (emit_inst (bit_or 0xa9807bfd ((128 - e.frame_size / 8 % 128) % 128 * 2 ^ 15))
        >> emit_inst 0x910003fd)
      e

unfoldable pub encode_instructions : List Instruction → Encoder → Encoder
encode_instructions [] e = e
encode_instructions (i ∷ is) e = encode_instructions is (encode_instruction i e)

unfoldable pub encode_blocks : List BasicBlock → Encoder → Encoder
unfolding encode_instructions
encode_blocks [] e = e
encode_blocks (b ∷ bs) e =
    encode_blocks bs ((mark_here b.label >> encode_instructions b.instructions) e)

-- `encodeFunctionInternal`
unfoldable pub encode_function : Function → Encoder → Encoder
unfolding fresh_frame enter store_params encode_blocks mark_here
encode_function f =
    fresh_frame >> mark_here f.name >> enter >> store_params 0 f.params >> encode_blocks f.blocks

unfoldable pub encode_functions : List Function → Encoder → Encoder
unfolding encode_function
encode_functions [] e = e
encode_functions (f ∷ fs) e = encode_functions fs (encode_function f e)

-- `offsetInst`, the distance in instructions as a 32-bit pattern; `/ 4` rounds to zero.
unfoldable pub distance : ℕ → ℕ → ℕ
distance location target =
    let d = (target % 2 ^ 32 + (2 ^ 32 - location % 2 ^ 32)) % 2 ^ 32 in
    if ltb d (2 ^ 31) then d / 4 else (2 ^ 32 - (2 ^ 32 - d) / 4) % 2 ^ 32

-- what is joined to the word of the branch
unfoldable pub branch_field : Patch → ℕ → ℕ
unfolding distance
branch_field p target =
    let d = distance p.location target in if p.conditional then d % 2 ^ 19 * 2 ^ 5 else d % 2 ^ 26

unfoldable pub branch_bytes : Patch → ℕ → List ℕ → List ℕ
unfolding branch_field word_at
branch_bytes p target code = le 4 (bit_or (word_at code p.location) (branch_field p target))

unfoldable pub cleared : Encoder → Encoder
cleared e = record e { asm = record { bytes = []; blocks = []; patches = [] } }

-- `encodeProgram` up to its last loop
unfoldable pub encoded : List Function → Encoder → Encoder
unfolding append_bytes mark append_jump ◌>>◌ when emit_inst emit_words emit_branch get_stack_offset
    at_slot stack_word emit_stack_store emit_stack_load emit_fpr_stack_store emit_fpr_stack_load
    wide_word keep_word load_imm_words emit_load_imm emit_value_load emit_fpr_value_load
    arm_register_code store_result load_operands encode_arith encode_div encode_mod
    encode_set_register encode_get_register encode_volatile_load encode_volatile_store
    encode_cond_branch load_argument load_arguments store_call_result encode_call load_return leave
    encode_return encode_op encode_instruction mark_here store_param store_params fresh_frame enter
    encode_instructions encode_blocks encode_function encode_functions arranged cleared
encoded program e = encode_functions (arranged program) (cleared e)

unfoldable pub encode_program : List Function → Encoder → List ℕ
unfolding encoded branch_bytes branch_field distance patch_all write_at word_at
encode_program program e =
    let out = (encoded program e).asm in patch_all branch_bytes out.blocks out.patches out.bytes
