-- ===== src/Arm/Instructions.antt =====
-- src/backend/arm64/ARM64Encoder.cpp: `encodeInstruction`.
-- An operand that is not there, which the source reads out of bounds, is an empty variable.
use lsm_toolchain.Prelude.{
  ℕ, ◌+◌, ◌*◌, ◌/◌, ◌%◌, ◌^◌, bit_or, true, false, not, List, [], ◌∷◌, String, none, some, ltb,
  ◌==◌, if◌then◌else◌, get_or,
}
use lsm_toolchain.Ssa.{StaticType, Op, Value, Instruction, make_var, is_named}
use lsm_toolchain.RegAlloc.Interval.{is_float}
use lsm_toolchain.Encode.{entry, ◌>>◌, when}
use lsm_toolchain.Arm.Emit.{
  Encoder, emit_inst, emit_branch, at_slot, emit_stack_store, emit_fpr_stack_store, emit_value_load,
  emit_fpr_value_load,
}

abbrev pub operand : ℕ → Instruction → Value
operand k i = get_or i.operands k (make_var "" StaticType.unknown)

-- `getARM64RegisterCode`
abbrev pub arm_registers : List (String × ℕ)
arm_registers =
    ("rax", 0)
    ∷ ("x0", 0)
    ∷ ("rcx", 1)
    ∷ ("x1", 1)
    ∷ ("rdx", 2)
    ∷ ("x2", 2)
    ∷ ("rbx", 3)
    ∷ ("x3", 3)
    ∷ ("rsi", 4)
    ∷ ("x4", 4)
    ∷ ("rdi", 5)
    ∷ ("x5", 5)
    ∷ ("rbp", 29)
    ∷ ("x29", 29)
    ∷ ("rsp", 31)
    ∷ ("sp", 31)
    ∷ []

unfoldable pub arm_register_code : String → ℕ
arm_register_code r = elim (entry r arm_registers) [ none ↦ 0 | some c ↦ c ]

-- `if (!inst.result.name.empty()) emitStackStore(0, getStackOffset(inst.result.name))`
unfoldable pub store_result : Instruction → Encoder → Encoder
store_result i = when (is_named i) (at_slot i.result.name (emit_stack_store 0))

-- both operands, in x0 and x1
unfoldable pub load_operands : Instruction → Encoder → Encoder
load_operands i = emit_value_load 0 (operand 0 i) >> emit_value_load 1 (operand 1 i)

-- `add`, `sub` and `mul` of x0 and x1
abbrev pub arith_word : Op → ℕ
arith_word Op.add = 0x8b010000
arith_word Op.sub = 0xcb010000
arith_word _ = 0x9b017c00

unfoldable pub encode_arith : Instruction → Encoder → Encoder
unfolding load_operands store_result
encode_arith i = load_operands i >> emit_inst (arith_word i.op) >> store_result i

unfoldable pub encode_div : Instruction → Encoder → Encoder
unfolding load_operands store_result
encode_div i = load_operands i >> emit_inst 0x9ac10c00 >> store_result i

unfoldable pub encode_mod : Instruction → Encoder → Encoder
unfolding load_operands store_result
encode_mod i = load_operands i >> emit_inst 0x9ac10c02 >> emit_inst 0x9b018040 >> store_result i

unfoldable pub encode_set_register : Instruction → Encoder → Encoder
unfolding arm_register_code
encode_set_register i = emit_value_load (arm_register_code (operand 0 i).str) (operand 1 i)

unfoldable pub encode_get_register : Instruction → Encoder → Encoder
unfolding arm_register_code store_result
encode_get_register i =
    let code = arm_register_code (operand 0 i).str in
    when (not (code == 0)) (emit_inst (bit_or 0xaa0003e0 (code * 2 ^ 16))) >> store_result i

unfoldable pub encode_volatile_load : Instruction → Encoder → Encoder
unfolding store_result
encode_volatile_load i = emit_value_load 0 (operand 0 i) >> emit_inst 0xf9400000 >> store_result i

unfoldable pub encode_volatile_store : Instruction → Encoder → Encoder
unfolding load_operands
encode_volatile_store i = load_operands i >> emit_inst 0xf9000001

unfoldable pub encode_cond_branch : Instruction → Encoder → Encoder
encode_cond_branch i =
    emit_value_load 0 (operand 0 i)
    >> emit_branch (operand 2 i).str true 0xb4000000
    >> emit_branch (operand 1 i).str false 0x14000000

unfoldable pub load_argument : ℕ → Value → Encoder → Encoder
load_argument k v = if is_float v.type then emit_fpr_value_load k v else emit_value_load k v

-- the loop over the operands behind the first, from the argument at index `k` on
unfoldable pub load_arguments : ℕ → List Value → Encoder → Encoder
unfolding load_argument
load_arguments k [] e = e
load_arguments k (v ∷ vs) e = load_arguments (k + 1) vs (when (ltb k 8) (load_argument k v) e)

abbrev pub rest_of : List Value → List Value
rest_of [] = []
rest_of (v ∷ vs) = vs

unfoldable pub store_call_result : Instruction → Encoder → Encoder
store_call_result i = when (is_named i) (
    if is_float i.result.type
    then at_slot i.result.name (emit_fpr_stack_store 0)
    else at_slot i.result.name (emit_stack_store 0))

unfoldable pub encode_call : Instruction → Encoder → Encoder
unfolding load_arguments store_call_result
encode_call i =
    load_arguments 0 (rest_of i.operands)
    >> emit_branch (operand 0 i).str false 0x94000000
    >> store_call_result i

unfoldable pub load_return : List Value → Encoder → Encoder
unfolding load_argument
load_return [] e = e
load_return (v ∷ vs) e = load_argument 0 v e

-- `ldp x29, x30, [sp], #imm` with the frame's size in the immediate, and `ret`
unfoldable pub leave : Encoder → Encoder
leave e =
    (emit_inst (bit_or 0xa8c07bfd (e.frame_size / 8 % 128 * 2 ^ 15)) >> emit_inst 0xd65f03c0) e

unfoldable pub encode_return : Instruction → Encoder → Encoder
unfolding load_return leave
encode_return i = load_return i.operands >> leave

-- the `switch` of `encodeInstruction`, which emits nothing for any other operation
unfoldable pub encode_op : Op → Instruction → Encoder → Encoder
encode_op Op.add i = encode_arith i
encode_op Op.sub i = encode_arith i
encode_op Op.mul i = encode_arith i
encode_op Op.div i = encode_div i
encode_op Op.modulo i = encode_mod i
encode_op Op.set_register i = encode_set_register i
encode_op Op.get_register i = encode_get_register i
encode_op Op.cpu_halt i = emit_inst 0xd503207f
encode_op Op.disable_interrupts i = emit_inst 0xd50342df
encode_op Op.enable_interrupts i = emit_inst 0xd50342ff
encode_op Op.volatile_load i = encode_volatile_load i
encode_op Op.io_port_read i = encode_volatile_load i
encode_op Op.volatile_store i = encode_volatile_store i
encode_op Op.io_port_write i = encode_volatile_store i
encode_op Op.cond_branch i = encode_cond_branch i
encode_op Op.branch i = emit_branch (operand 0 i).str false 0x14000000
encode_op Op.call i = encode_call i
encode_op Op.return i = encode_return i
encode_op _ i = λ e. e

unfoldable pub encode_instruction : Instruction → Encoder → Encoder
unfolding encode_op
encode_instruction i = encode_op i.op i
