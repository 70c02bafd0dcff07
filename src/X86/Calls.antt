-- ===== src/X86/Calls.antt =====
-- src/backend/x86_64/X86_64Encoder.cpp: calls, and the dispatch on the operation.
-- The addresses of the three functions that print are parameters, by their names.
use lsm_toolchain.Prelude.{
  ℕ, zero, suc, ◌+◌, true, false, not, List, [], ◌∷◌, String, none, some, ltb, ◌==◌, if◌then◌else◌,
  str_eq,
}
use lsm_toolchain.Ssa.{Op, Value, Instruction, is_named}
use lsm_toolchain.RegAlloc.Interval.{is_float}
use lsm_toolchain.Encode.{entry, ◌>>◌, when}
use lsm_toolchain.X86.Emit.{
  Encoder, emit, emit_int32, emit_int64, emit_jump, rex, emit_value_store, emit_xmm_value_store,
  emit_value_load, emit_xmm_value_load,
}
use lsm_toolchain.X86.Instructions.{
  operand, rex_w, encode_arith, encode_division, encode_float, encode_vector, encode_copy,
  encode_compare, encode_float_compare, encode_array_alloc, encode_array_load, encode_array_store,
  encode_set_register, encode_get_register, encode_port_read, encode_port_write,
  encode_volatile_load, encode_volatile_store, encode_cond_branch, encode_branch, encode_return,
}

-- `sysvGPR`
abbrev pub argument_register : ℕ → ℕ
argument_register zero = 7
argument_register (suc zero) = 6
argument_register (suc (suc zero)) = 2
argument_register _ = 1

abbrev pub print_names : List String
print_names = "__lsm_native_print_num" ∷ "__lsm_native_print_float" ∷ "__lsm_native_print_str" ∷ []

-- `funcPtr`, where 0 is none
unfoldable pub function_address : (String → ℕ) → List String → String → List (String × ℕ) → ℕ
function_address native [] fn external = elim (entry fn external) [ none ↦ 0 | some a ↦ a ]
function_address native (p ∷ ps) fn external =
    if str_eq fn p then native p else function_address native ps fn external

unfoldable pub store_call_result : Instruction → Encoder → Encoder
store_call_result i = when (is_named i) (
    if is_float i.result.type
    then emit_xmm_value_store 0 i.result.name
    else emit_value_store 0 i.result.name)

module _ (address : List String → ℕ) (native : String → ℕ) where
  -- the value in rax, and `mov r8, rax` or `mov r9, rax`
  unfoldable pub load_high_argument : ℕ → Value → Encoder → Encoder
  load_high_argument modrm v =
      emit_value_load address 0 v >> emit (rex true false false true ∷ 0x89 ∷ modrm ∷ [])

  -- the argument at an index below six
  unfoldable pub load_argument : ℕ → Value → Encoder → Encoder
  unfolding load_high_argument
  load_argument k v =
      if is_float v.type
      then emit_xmm_value_load k v
      else if ltb k 4
      then emit_value_load address (argument_register k) v
      else load_high_argument (if k == 4 then 0xc0 else 0xc1) v

  -- the loop over the operands behind the first, from the argument at index `k` on
  unfoldable pub load_arguments : ℕ → List Value → Encoder → Encoder
  unfolding load_argument
  load_arguments k [] e = e
  load_arguments k (v ∷ vs) e = load_arguments (k + 1) vs (when (ltb k 6) (load_argument k v) e)

  unfoldable pub emit_call : String → Encoder → Encoder
  emit_call fn e =
      let a = function_address native print_names fn e.external_symbols in
      if not (a == 0)
      then (emit (rex_w ∷ 0xb8 ∷ []) >> emit_int64 a >> emit (0xff ∷ 0xd0 ∷ [])) e
      else (emit (0xe8 ∷ []) >> emit_jump fn) e

  abbrev pub rest_of : List Value → List Value
  rest_of [] = []
  rest_of (v ∷ vs) = vs

  unfoldable pub encode_call : Instruction → Encoder → Encoder
  encode_call i =
      load_arguments 0 (rest_of i.operands)
      >> emit (rex_w ∷ 0x83 ∷ 0xec ∷ 0x20 ∷ [])
      >> emit_call (operand 0 i).str
      >> emit (rex_w ∷ 0x81 ∷ 0xc4 ∷ [])
      >> emit_int32 32
      >> store_call_result i

  -- the `switch` of `encodeInstruction`, which emits nothing for any other operation
  unfoldable pub encode_op : Op → Instruction → Encoder → Encoder
  encode_op Op.add i = encode_arith address i
  encode_op Op.sub i = encode_arith address i
  encode_op Op.mul i = encode_arith address i
  encode_op Op.div i = encode_division address 0 i
  encode_op Op.modulo i = encode_division address 2 i
  encode_op Op.fadd i = encode_float address i
  encode_op Op.fsub i = encode_float address i
  encode_op Op.fmul i = encode_float address i
  encode_op Op.fdiv i = encode_float address i
  encode_op Op.vector_add i = encode_vector address i
  encode_op Op.copy i = encode_copy address i
  encode_op Op.equal i = encode_compare address i
  encode_op Op.not_equal i = encode_compare address i
  encode_op Op.less_than i = encode_compare address i
  encode_op Op.less_equal i = encode_compare address i
  encode_op Op.greater_than i = encode_compare address i
  encode_op Op.greater_equal i = encode_compare address i
  encode_op Op.fequal i = encode_float_compare address i
  encode_op Op.fnot_equal i = encode_float_compare address i
  encode_op Op.fless_than i = encode_float_compare address i
  encode_op Op.fless_equal i = encode_float_compare address i
  encode_op Op.fgreater_than i = encode_float_compare address i
  encode_op Op.fgreater_equal i = encode_float_compare address i
  encode_op Op.array_alloc i = encode_array_alloc i
  encode_op Op.array_load i = encode_array_load address i
  encode_op Op.array_store i = encode_array_store address i
  encode_op Op.set_register i = encode_set_register address i
  encode_op Op.get_register i = encode_get_register i
  encode_op Op.cpu_halt i = emit (0xf4 ∷ [])
  encode_op Op.disable_interrupts i = emit (0xfa ∷ [])
  encode_op Op.enable_interrupts i = emit (0xfb ∷ [])
  encode_op Op.io_port_read i = encode_port_read address i
  encode_op Op.io_port_write i = encode_port_write address i
  encode_op Op.volatile_load i = encode_volatile_load address i
  encode_op Op.volatile_store i = encode_volatile_store address i
  encode_op Op.cond_branch i = encode_cond_branch address i
  encode_op Op.branch i = encode_branch i
  encode_op Op.call i = encode_call i
  encode_op Op.return i = encode_return address i
  encode_op _ i = λ e. e

  unfoldable pub encode_instruction : Instruction → Encoder → Encoder
  encode_instruction i = encode_op i.op i
