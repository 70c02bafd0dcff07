-- ===== src/X86/Emit.antt =====
-- src/backend/x86_64/X86_64Encoder.cpp: the state of the encoder and its emitters.
-- An `int` is its 32-bit pattern, so an offset of -8 is 2^32 - 8; an `int64_t` is its 64-bit
-- pattern, and so is a double. What is not decided in the source is a parameter: the address of
-- the text that was pushed on the string pool last.
use lsm_toolchain.Prelude.{
  ℕ, ◌+◌, ◌-◌, ◌*◌, ◌%◌, ◌^◌, bit_or, bit_and, Bool, true, false, ◌||◌, List, [], ◌∷◌, String, none,
  some, ltb, leb, if◌then◌else◌,
}
use lsm_toolchain.Ssa.{StaticType, Value}
use lsm_toolchain.Elf.{le}
use lsm_toolchain.Encode.{Code, entry, append_bytes, append_jump, ◌>>◌}

pub record Encoder : Type 0 where
  pub asm : Code
  pub stack_offsets : List (String × ℕ)
  pub array_base_offsets : List (String × ℕ)
  pub current_stack_offset : ℕ
  pub string_pool : List String
  pub external_symbols : List (String × ℕ)

-- `emitByte`, one call for each byte of the list
unfoldable pub emit : List ℕ → Encoder → Encoder
emit bs e = record e { asm = append_bytes bs e.asm }

-- `emitInt32`
unfoldable pub emit_int32 : ℕ → Encoder → Encoder
unfolding emit
emit_int32 v = emit (le 4 v)

-- `emitInt64`, and `emitDouble` for the pattern of a double
unfoldable pub emit_int64 : ℕ → Encoder → Encoder
unfolding emit
emit_int64 v = emit (le 8 v)

-- `jumpPatches.push_back({code.size(), label})` and `emitInt32(0)`
unfoldable pub emit_jump : String → Encoder → Encoder
emit_jump l e = record e { asm = append_jump l false (le 4 0) e.asm }

abbrev pub bit : ℕ → Bool → ℕ
bit v b = if b then v else 0

-- the byte of `emitREX`
abbrev pub rex : Bool → Bool → Bool → Bool → ℕ
rex w r x b =
    bit_or (bit_or (bit_or (bit_or 0x40 (bit 0x08 w)) (bit 0x04 r)) (bit 0x02 x)) (bit 0x01 b)

-- `currentStackOffset -= n`
abbrev pub minus_int : ℕ → ℕ → ℕ
minus_int a n = (a + (2 ^ 32 - n % 2 ^ 32)) % 2 ^ 32

unfoldable pub get_stack_offset : String → Encoder → ℕ × Encoder
get_stack_offset v e = elim (entry v e.stack_offsets) [
  | some o ↦ (o, e)
  | none ↦
      let o = minus_int e.current_stack_offset 8 in
      (o, record e { current_stack_offset = o; stack_offsets = (v, o) ∷ e.stack_offsets })
]

-- `offset >= -128 && offset <= 127`
abbrev pub is_short : ℕ → Bool
is_short o = ltb o 128 || leb (2 ^ 32 - 128) o

-- the ModRM byte for `[rbp + offset]` and the displacement, of one byte or of four
unfoldable pub frame_operand : ℕ → ℕ → List ℕ
frame_operand r o =
    if is_short o then bit_or 0x45 (r * 8) ∷ o % 256 ∷ [] else bit_or 0x85 (r * 8) ∷ le 4 o

-- the bytes of `emitStackLoad` and `emitStackStore`, by their opcode
unfoldable pub stack_move : ℕ → ℕ → ℕ → List ℕ
unfolding frame_operand
stack_move opcode reg o =
    rex true (leb 8 reg) false false ∷ opcode ∷ frame_operand (bit_and reg 7) o

unfoldable pub emit_stack_load : ℕ → ℕ → Encoder → Encoder
unfolding emit stack_move
emit_stack_load reg o = emit (stack_move 0x8b reg o)

unfoldable pub emit_stack_store : ℕ → ℕ → Encoder → Encoder
unfolding emit stack_move
emit_stack_store reg o = emit (stack_move 0x89 reg o)

-- the bytes of `emitXmmLoad` and `emitXmmStore`, by their opcode
unfoldable pub xmm_move : ℕ → ℕ → ℕ → List ℕ
unfolding frame_operand
xmm_move opcode reg o = 0xf2 ∷ 0x0f ∷ opcode ∷ frame_operand reg o

unfoldable pub emit_xmm_load : ℕ → ℕ → Encoder → Encoder
unfolding emit xmm_move
emit_xmm_load reg o = emit (xmm_move 0x10 reg o)

unfoldable pub emit_xmm_store : ℕ → ℕ → Encoder → Encoder
unfolding emit xmm_move
emit_xmm_store reg o = emit (xmm_move 0x11 reg o)

-- what is done at the offset of a variable
unfoldable pub at_slot : String → (ℕ → Encoder → Encoder) → Encoder → Encoder
unfolding get_stack_offset
at_slot v act e = let (o, e') = get_stack_offset v e in act o e'

unfoldable pub emit_value_store : ℕ → String → Encoder → Encoder
unfolding at_slot emit_stack_store
emit_value_store reg v = at_slot v (emit_stack_store reg)

unfoldable pub emit_xmm_value_store : ℕ → String → Encoder → Encoder
unfolding at_slot emit_xmm_store
emit_xmm_value_store reg v = at_slot v (emit_xmm_store reg)

-- `movabs reg, imm64` without its immediate
abbrev pub movabs : ℕ → List ℕ
movabs reg = rex true false false (leb 8 reg) ∷ (0xb8 + bit_and reg 7) ∷ []

is_string : StaticType → Bool
is_string StaticType.string = true
is_string _ = false

module _ (address : List String → ℕ) where
  -- the address of a text constant, which is pushed on the pool
  unfoldable pub emit_text : String → Encoder → Encoder
  unfolding emit_int64
  emit_text s e =
      let pool = s ∷ e.string_pool in emit_int64 (address pool) (record e { string_pool = pool })

  unfoldable pub emit_value_load : ℕ → Value → Encoder → Encoder
  unfolding emit emit_text emit_int64 is_string at_slot emit_stack_load
  emit_value_load reg v =
      if v.is_constant
      then emit (movabs reg) >> (if is_string v.type then emit_text v.str else emit_int64 v.num)
      else at_slot v.name (emit_stack_load reg)

unfoldable pub emit_xmm_value_load : ℕ → Value → Encoder → Encoder
unfolding emit emit_int64 at_slot emit_xmm_load
emit_xmm_value_load reg v =
    if v.is_constant
    then (emit (rex true false false false ∷ 0xb8 ∷ [])
        >> emit_int64 v.float
        >> emit (0x66 ∷ rex true false false false ∷ 0x0f ∷ 0x6e ∷ bit_or 0xc0 (reg * 8) ∷ []))
    else at_slot v.name (emit_xmm_load reg)

-- `resolveSymbol` of the dynamic loader is a parameter; 0 is no address.
unfoldable pub register_external_symbol :
    (String → String → ℕ) → String → String → Encoder → Encoder
register_external_symbol resolve lib sym e =
    let a = resolve lib sym in
    if ltb 0 a then record e { external_symbols = (sym, a) ∷ e.external_symbols } else e
