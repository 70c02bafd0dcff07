-- ===== src/X86/Program.antt =====
-- src/backend/x86_64/X86_64Encoder.cpp: functions and programs.
use lsm_toolchain.Prelude.{
  ℕ, ◌+◌, ◌-◌, ◌%◌, ◌^◌, true, false, not, List, [], ◌∷◌, ◌++◌, String, Option, none, some, ltb,
  ◌==◌, if◌then◌else◌, str_eq,
}
use lsm_toolchain.Ssa.{StaticType, Instruction, BasicBlock, Function}
use lsm_toolchain.RegAlloc.Interval.{is_float}
use lsm_toolchain.Elf.{le}
use lsm_toolchain.Encode.{Patch, mark, ◌>>◌, when, patch_all, append_bytes, append_jump, write_at}
use lsm_toolchain.X86.Emit.{
  Encoder, emit, emit_int32, rex, emit_value_store, emit_xmm_value_store, emit_int64, emit_jump,
  get_stack_offset, frame_operand, stack_move, emit_stack_load, emit_stack_store, xmm_move,
  emit_xmm_load, emit_xmm_store, at_slot, emit_text, emit_value_load, emit_xmm_value_load,
}
use lsm_toolchain.X86.Instructions.{
  rex_w, store_result, store_xmm_result, native_register_code, encode_array_alloc, touch_base,
  emit_element, encode_get_register, encode_branch, encode_arith, encode_division, encode_float,
  encode_vector, encode_copy, encode_compare, encode_float_compare, array_load_at,
  encode_array_load, array_store_at, encode_array_store, encode_set_register, encode_port_read,
  encode_port_write, encode_volatile_load, encode_volatile_store, encode_cond_branch, load_return,
  encode_return,
}
use lsm_toolchain.X86.Calls.{
  argument_register, encode_instruction, function_address, store_call_result, load_high_argument,
  load_argument, load_arguments, emit_call, encode_call, encode_op,
}

unfoldable pub mark_here : String → Encoder → Encoder
mark_here l e = record e { asm = mark l e.asm }

-- the parameter at an index below six
unfoldable pub store_param : ℕ → String × StaticType → Encoder → Encoder
store_param k (name, t) =
    if is_float t
    then emit_xmm_value_store k name
    else if ltb k 4
    then emit_value_store (argument_register k) name
    else (emit (rex true true false false ∷ 0x89 ∷ (if k == 4 then 0xc0 else 0xc8) ∷ [])
        >> emit_value_store 0 name)

unfoldable pub store_params : ℕ → List (String × StaticType) → Encoder → Encoder
unfolding store_param
store_params k [] e = e
store_params k (p ∷ ps) e = store_params (k + 1) ps (when (ltb k 6) (store_param k p) e)

-- `allocatedStackSize`
abbrev pub frame_size : ℕ
frame_size = 8192

unfoldable pub prologue : List (String × StaticType) → Encoder → Encoder
unfolding store_params
prologue params =
    emit (0x55 ∷ [])
    >> emit (rex_w ∷ 0x89 ∷ 0xe5 ∷ [])
    >> emit (rex_w ∷ 0x81 ∷ 0xec ∷ [])
    >> emit_int32 frame_size
    >> store_params 0 params

unfoldable pub fresh_frame : Encoder → Encoder
fresh_frame e = record e { stack_offsets = []; current_stack_offset = 0 }

module _ (address : List String → ℕ) (native : String → ℕ) where
  unfoldable pub encode_instructions : List Instruction → Encoder → Encoder
  encode_instructions [] e = e
  encode_instructions (i ∷ is) e = encode_instructions is (encode_instruction address native i e)

  unfoldable pub encode_blocks : List BasicBlock → Encoder → Encoder
  unfolding encode_instructions
  encode_blocks [] e = e
  encode_blocks (b ∷ bs) e =
      encode_blocks bs ((mark_here b.label >> encode_instructions b.instructions) e)

  -- `encodeFunctionInternal`
  unfoldable pub encode_function : Function → Encoder → Encoder
  unfolding encode_blocks
  encode_function f =
      fresh_frame
      >> mark_here f.name
      >> when (not f.is_naked) (prologue f.params)
      >> encode_blocks f.blocks

  unfoldable pub encode_functions : List Function → Encoder → Encoder
  unfolding encode_function
  encode_functions [] e = e
  encode_functions (f ∷ fs) e = encode_functions fs (encode_function f e)

-- the last function of a name, which the loop over the program leaves in `startFunc` or `mainFunc`
abbrev pub last_named : String → List Function → Option Function
last_named n [] = none
last_named n (f ∷ fs) = elim (last_named n fs) [
  | some g ↦ some g
  | none ↦ if str_eq f.name n then some f else none
]

abbrev pub others : List Function → List Function
others [] = []
others (f ∷ fs) =
    let rest = others fs in
    if str_eq f.name "_start" then rest else if str_eq f.name "main" then rest else f ∷ rest

abbrev pub to_list {ℓ} : {A : Type ℓ} → Option A → List A
to_list none = []
to_list (some a) = a ∷ []

-- the order in which the functions are encoded: `_start`, `main` and all others
unfoldable pub arranged : List Function → List Function
arranged fs = to_list (last_named "_start" fs) ++ (to_list (last_named "main" fs) ++ others fs)

-- the distance of a jump from the end of its four bytes
unfoldable pub relative : Patch → ℕ → ℕ
relative p target = (target % 2 ^ 32 + (2 ^ 32 - (p.location + 4) % 2 ^ 32)) % 2 ^ 32

unfoldable pub jump_field : Patch → ℕ → List ℕ → List ℕ
unfolding relative
jump_field p target code = le 4 (relative p target)

unfoldable pub cleared : Encoder → Encoder
cleared e = record e { asm = record { bytes = []; blocks = []; patches = [] } }

-- `encodeProgram` up to its last loop, and the code that it returns
unfoldable pub encoded : (List String → ℕ) → (String → ℕ) → List Function → Encoder → Encoder
unfolding append_bytes mark append_jump ◌>>◌ when emit emit_int32 emit_int64 emit_jump
    get_stack_offset frame_operand stack_move emit_stack_load emit_stack_store xmm_move
    emit_xmm_load emit_xmm_store at_slot emit_value_store emit_xmm_value_store emit_text
    emit_value_load emit_xmm_value_load store_result store_xmm_result native_register_code
    encode_array_alloc touch_base emit_element encode_get_register encode_branch encode_arith
    encode_division encode_float encode_vector encode_copy encode_compare encode_float_compare
    array_load_at encode_array_load array_store_at encode_array_store encode_set_register
    encode_port_read encode_port_write encode_volatile_load encode_volatile_store encode_cond_branch
    load_return encode_return function_address store_call_result load_high_argument load_argument
    load_arguments emit_call encode_call encode_op encode_instruction mark_here store_param
    store_params prologue fresh_frame encode_instructions encode_blocks encode_function
    encode_functions arranged cleared
encoded address native program e = encode_functions address native (arranged program) (cleared e)

unfoldable pub encode_program : (List String → ℕ) → (String → ℕ) → List Function → Encoder → List ℕ
unfolding encoded jump_field relative patch_all write_at
encode_program address native program e =
    let out = (encoded address native program e).asm in
    patch_all jump_field out.blocks out.patches out.bytes
