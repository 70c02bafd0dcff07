-- ===== src/X86/Instructions.antt =====
-- src/backend/x86_64/X86_64Encoder.cpp: `encodeInstruction`, but for calls.
-- An operand that is not there, which the source reads out of bounds, is an empty variable.
use lsm_toolchain.Prelude.{
  ℕ, ◌*◌, bit_or, true, false, not, List, [], ◌∷◌, String, none, some, leb, ◌==◌, if◌then◌else◌,
  get_or, length,
}
use lsm_toolchain.Ssa.{StaticType, Op, Value, Instruction, make_var, is_named}
use lsm_toolchain.RegAlloc.Interval.{is_float}
use lsm_toolchain.Encode.{entry, ◌>>◌, when}
use lsm_toolchain.X86.Emit.{
  Encoder, emit, emit_int32, emit_jump, rex, minus_int, emit_value_store, emit_xmm_value_store,
  emit_value_load, emit_xmm_value_load,
}

abbrev pub operand : ℕ → Instruction → Value
operand k i = get_or i.operands k (make_var "" StaticType.unknown)

abbrev pub rex_w : ℕ
rex_w = rex true false false false

-- `if (!inst.result.name.empty()) emitValueStore(reg, inst.result.name)`
unfoldable pub store_result : ℕ → Instruction → Encoder → Encoder
store_result reg i = when (is_named i) (emit_value_store reg i.result.name)

unfoldable pub store_xmm_result : Instruction → Encoder → Encoder
store_xmm_result i = when (is_named i) (emit_xmm_value_store 0 i.result.name)

-- `getX86NativeRegisterCode`
abbrev pub native_registers : List (String × ℕ)
native_registers =
    ("rax", 0)
    ∷ ("rcx", 1)
    ∷ ("rdx", 2)
    ∷ ("rbx", 3)
    ∷ ("rsp", 4)
    ∷ ("rbp", 5)
    ∷ ("rsi", 6)
    ∷ ("rdi", 7)
    ∷ []

unfoldable pub native_register_code : String → ℕ
native_register_code r = elim (entry r native_registers) [ none ↦ 0 | some c ↦ c ]

-- `add`, `sub` and `imul` of rax and rcx
abbrev pub arith_opcode : Op → List ℕ
arith_opcode Op.add = 0x01 ∷ 0xc8 ∷ []
arith_opcode Op.sub = 0x29 ∷ 0xc8 ∷ []
arith_opcode Op.mul = 0x0f ∷ 0xaf ∷ 0xc1 ∷ []
arith_opcode _ = []

abbrev pub float_opcode : Op → List ℕ
float_opcode Op.fadd = 0x58 ∷ 0xc1 ∷ []
float_opcode Op.fsub = 0x5c ∷ 0xc1 ∷ []
float_opcode Op.fmul = 0x59 ∷ 0xc1 ∷ []
float_opcode Op.fdiv = 0x5e ∷ 0xc1 ∷ []
float_opcode _ = []

-- the second byte of `setcc`, after the comparison of integers and of doubles
abbrev pub set_opcode : Op → List ℕ
set_opcode Op.equal = 0x94 ∷ []
set_opcode Op.not_equal = 0x95 ∷ []
set_opcode Op.less_than = 0x9c ∷ []
set_opcode Op.less_equal = 0x9e ∷ []
set_opcode Op.greater_than = 0x9f ∷ []
set_opcode Op.greater_equal = 0x9d ∷ []
set_opcode Op.fequal = 0x94 ∷ []
set_opcode Op.fnot_equal = 0x95 ∷ []
set_opcode Op.fless_than = 0x92 ∷ []
set_opcode Op.fless_equal = 0x96 ∷ []
set_opcode Op.fgreater_than = 0x97 ∷ []
set_opcode Op.fgreater_equal = 0x93 ∷ []
set_opcode _ = []

-- `movzx rax, al`
abbrev pub movzx_al : List ℕ
movzx_al = rex_w ∷ 0x0f ∷ 0xb6 ∷ 0xc0 ∷ []

abbrev pub base_offset : String → Encoder → ℕ
base_offset name e = elim (entry name e.array_base_offsets) [ none ↦ 0 | some o ↦ o ]

unfoldable pub encode_array_alloc : Instruction → Encoder → Encoder
encode_array_alloc i e =
    let o = minus_int e.current_stack_offset ((operand 0 i).num * 8) in
    record e {
      current_stack_offset = o;
      array_base_offsets = (i.result.name, o) ∷ e.array_base_offsets;
    }

-- `arrayBaseOffsets[name]` enters a 0 for a name that it does not hold.
unfoldable pub touch_base : String → Encoder → Encoder
touch_base name e = elim (entry name e.array_base_offsets) [
  | none ↦ record e { array_base_offsets = (name, 0) ∷ e.array_base_offsets }
  | some o ↦ e
]

-- `shl rcx, 3`, `lea rax, [rbp + base]` and `add rax, rcx`, for the base offset read before
unfoldable pub emit_element : ℕ → Encoder → Encoder
emit_element o =
    emit (rex_w ∷ 0xc1 ∷ 0xe1 ∷ 0x03 ∷ [])
    >> emit (rex_w ∷ 0x8d ∷ 0x85 ∷ [])
    >> emit_int32 o
    >> emit (rex_w ∷ 0x01 ∷ 0xc8 ∷ [])

unfoldable pub encode_get_register : Instruction → Encoder → Encoder
unfolding native_register_code
encode_get_register i =
    let r = native_register_code (operand 0 i).str in
    when (not (r == 0)) (emit (rex_w ∷ 0x89 ∷ bit_or 0xc0 (r * 8) ∷ [])) >> store_result 0 i

unfoldable pub encode_branch : Instruction → Encoder → Encoder
encode_branch i = emit (0xe9 ∷ []) >> emit_jump (operand 0 i).str

-- `mov rsp, rbp`, `pop rbp` and `ret`
abbrev pub epilogue : List ℕ
epilogue = rex_w ∷ 0x89 ∷ 0xec ∷ 0x5d ∷ 0xc3 ∷ []

module _ (address : List String → ℕ) where
  abbrev load : ℕ → ℕ → Instruction → Encoder → Encoder
  load reg k i = emit_value_load address reg (operand k i)

  abbrev load_xmm : ℕ → ℕ → Instruction → Encoder → Encoder
  load_xmm reg k i = emit_xmm_value_load reg (operand k i)

  unfoldable pub encode_arith : Instruction → Encoder → Encoder
  encode_arith i = load 0 0 i >> load 1 1 i >> emit (rex_w ∷ arith_opcode i.op) >> store_result 0 i

  unfoldable pub encode_division : ℕ → Instruction → Encoder → Encoder
  encode_division target i =
      load 0 0 i
      >> load 1 1 i
      >> emit (rex_w ∷ 0x99 ∷ [])
      >> emit (rex_w ∷ 0xf7 ∷ 0xf9 ∷ [])
      >> store_result target i

  unfoldable pub encode_float : Instruction → Encoder → Encoder
  encode_float i =
      load_xmm 0 0 i
      >> load_xmm 1 1 i
      >> emit (0xf2 ∷ 0x0f ∷ float_opcode i.op)
      >> store_xmm_result i

  unfoldable pub encode_vector : Instruction → Encoder → Encoder
  encode_vector i = when (leb 4 (length i.operands)) (
      load_xmm 0 0 i
      >> load_xmm 1 1 i
      >> emit (0x66 ∷ 0x0f ∷ 0x58 ∷ 0xc1 ∷ [])
      >> store_xmm_result i)

  unfoldable pub encode_copy : Instruction → Encoder → Encoder
  encode_copy i =
      if is_float (operand 0 i).type
      then load_xmm 0 0 i >> store_xmm_result i
      else load 0 0 i >> store_result 0 i

  unfoldable pub encode_compare : Instruction → Encoder → Encoder
  encode_compare i =
      load 0 0 i
      >> load 1 1 i
      >> emit (rex_w ∷ 0x3b ∷ 0xc1 ∷ [])
      >> emit (0x0f ∷ set_opcode i.op)
      >> emit (0xc0 ∷ movzx_al)
      >> store_result 0 i

  unfoldable pub encode_float_compare : Instruction → Encoder → Encoder
  encode_float_compare i =
      load_xmm 0 0 i
      >> load_xmm 1 1 i
      >> emit (0x66 ∷ 0x0f ∷ 0x2e ∷ 0xc1 ∷ [])
      >> emit (0x0f ∷ set_opcode i.op)
      >> emit (0xc0 ∷ movzx_al)
      >> store_result 0 i

  -- the access to an array whose base offset is known
  unfoldable pub array_load_at : ℕ → Instruction → Encoder → Encoder
  array_load_at o i =
      touch_base (operand 0 i).name
      >> load 1 1 i
      >> emit_element o
      >> emit (rex_w ∷ 0x8b ∷ 0x00 ∷ [])
      >> store_result 0 i

  unfoldable pub encode_array_load : Instruction → Encoder → Encoder
  unfolding array_load_at
  encode_array_load i e = array_load_at (base_offset (operand 0 i).name e) i e

  unfoldable pub array_store_at : ℕ → Instruction → Encoder → Encoder
  array_store_at o i =
      touch_base (operand 0 i).name
      >> load 1 1 i
      >> load 2 2 i
      >> emit_element o
      >> emit (rex_w ∷ 0x89 ∷ 0x10 ∷ [])

  unfoldable pub encode_array_store : Instruction → Encoder → Encoder
  unfolding array_store_at
  encode_array_store i e = array_store_at (base_offset (operand 0 i).name e) i e

  unfoldable pub encode_set_register : Instruction → Encoder → Encoder
  unfolding native_register_code
  encode_set_register i = load (native_register_code (operand 0 i).str) 1 i

  unfoldable pub encode_port_read : Instruction → Encoder → Encoder
  encode_port_read i = load 2 0 i >> emit (0xec ∷ []) >> emit movzx_al >> store_result 0 i

  unfoldable pub encode_port_write : Instruction → Encoder → Encoder
  encode_port_write i = load 2 0 i >> load 0 1 i >> emit (0xee ∷ [])

  unfoldable pub encode_volatile_load : Instruction → Encoder → Encoder
  encode_volatile_load i = load 0 0 i >> emit (rex_w ∷ 0x8b ∷ 0x00 ∷ []) >> store_result 0 i

  unfoldable pub encode_volatile_store : Instruction → Encoder → Encoder
  encode_volatile_store i = load 0 0 i >> load 1 1 i >> emit (rex_w ∷ 0x89 ∷ 0x08 ∷ [])

  unfoldable pub encode_cond_branch : Instruction → Encoder → Encoder
  encode_cond_branch i =
      load 0 0 i
      >> emit (rex_w ∷ 0x85 ∷ 0xc0 ∷ [])
      >> emit (0x0f ∷ 0x84 ∷ [])
      >> emit_jump (operand 2 i).str
      >> emit (0xe9 ∷ [])
      >> emit_jump (operand 1 i).str

  unfoldable pub load_return : List Value → Encoder → Encoder
  load_return [] e = e
  load_return (v ∷ vs) e =
      if is_float v.type then emit_xmm_value_load 0 v e else emit_value_load address 0 v e

  unfoldable pub encode_return : Instruction → Encoder → Encoder
  unfolding load_return
  encode_return i = load_return i.operands >> emit epilogue
