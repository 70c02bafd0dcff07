-- ===== src/Arm/Emit.antt =====
-- src/backend/arm64/ARM64Encoder.cpp: the state of the encoder and its emitters.
-- Offsets of the frame are positive, so an `int` is a number; an `int64_t` and a double are their
-- 64-bit patterns. An instruction is a 32-bit word.
use lsm_toolchain.Prelude.{
  ℕ, ◌+◌, ◌*◌, ◌/◌, ◌%◌, ◌^◌, bit_or, Bool, List, [], ◌∷◌, ◌++◌, String, none, some, ◌==◌,
  if◌then◌else◌,
}
use lsm_toolchain.Ssa.{Value}
use lsm_toolchain.Elf.{le}
use lsm_toolchain.Encode.{Code, entry, append_bytes, append_jump, ◌>>◌}

pub record Encoder : Type 0 where
  pub asm : Code
  pub stack_offsets : List (String × ℕ)
  pub current_stack_offset : ℕ
  pub frame_size : ℕ

-- `emitInst32`
unfoldable pub emit_inst : ℕ → Encoder → Encoder
emit_inst w e = record e { asm = append_bytes (le 4 w) e.asm }

unfoldable pub emit_words : List ℕ → Encoder → Encoder
unfolding emit_inst
emit_words [] e = e
emit_words (w ∷ ws) e = emit_words ws (emit_inst w e)

-- `branchPatches.push_back({code.size(), label, conditional})` and the `emitInst32` behind it
unfoldable pub emit_branch : String → Bool → ℕ → Encoder → Encoder
emit_branch l conditional w e = record e { asm = append_jump l conditional (le 4 w) e.asm }

unfoldable pub get_stack_offset : String → Encoder → ℕ × Encoder
get_stack_offset v e = elim (entry v e.stack_offsets) [
  | some o ↦ (o, e)
  | none ↦
      let o = e.current_stack_offset + 8 in
      (o, record e { current_stack_offset = o; stack_offsets = (v, o) ∷ e.stack_offsets })
]

-- what is done at the offset of a variable
unfoldable pub at_slot : String → (ℕ → Encoder → Encoder) → Encoder → Encoder
unfolding get_stack_offset
at_slot v act e = let (o, e') = get_stack_offset v e in act o e'

-- the word of the four moves between a register and the frame, by their opcode
unfoldable pub stack_word : ℕ → ℕ → ℕ → ℕ
stack_word opcode reg o = bit_or (bit_or opcode (o / 8 % 2 ^ 12 * 2 ^ 10)) (reg % 32)

unfoldable pub emit_stack_store : ℕ → ℕ → Encoder → Encoder
unfolding emit_inst stack_word
emit_stack_store reg o = emit_inst (stack_word 0xf90003e0 reg o)

unfoldable pub emit_stack_load : ℕ → ℕ → Encoder → Encoder
unfolding emit_inst stack_word
emit_stack_load reg o = emit_inst (stack_word 0xf94003e0 reg o)

unfoldable pub emit_fpr_stack_store : ℕ → ℕ → Encoder → Encoder
unfolding emit_inst stack_word
emit_fpr_stack_store reg o = emit_inst (stack_word 0xbd0003e0 reg o)

unfoldable pub emit_fpr_stack_load : ℕ → ℕ → Encoder → Encoder
unfolding emit_inst stack_word
emit_fpr_stack_load reg o = emit_inst (stack_word 0xbd4003e0 reg o)

-- the move of sixteen bits into a register
unfoldable pub wide_word : ℕ → ℕ → ℕ → ℕ
wide_word opcode reg part = bit_or (bit_or opcode (part * 2 ^ 5)) (reg % 32)

-- `if (part) emitInst32(...)`
unfoldable pub keep_word : ℕ → ℕ → ℕ → List ℕ
unfolding wide_word
keep_word opcode reg part = if part == 0 then [] else wide_word opcode reg part ∷ []

unfoldable pub load_imm_words : ℕ → ℕ → List ℕ
unfolding wide_word keep_word
load_imm_words reg v =
    wide_word 0xd2800000 reg (v % 2 ^ 16)
    ∷ (keep_word 0xf2a00000 reg (v / 2 ^ 16 % 2 ^ 16)
        ++ (keep_word 0xf2c00000 reg (v / 2 ^ 32 % 2 ^ 16)
            ++ keep_word 0xf2e00000 reg (v / 2 ^ 48 % 2 ^ 16)))

-- `emitLoadImm64`
unfoldable pub emit_load_imm : ℕ → ℕ → Encoder → Encoder
unfolding emit_words load_imm_words
emit_load_imm reg v = emit_words (load_imm_words reg v)

-- `emitLoadGPROrImm`
unfoldable pub emit_value_load : ℕ → Value → Encoder → Encoder
unfolding emit_load_imm at_slot emit_stack_load
emit_value_load reg v =
    if v.is_constant then emit_load_imm reg v.num else at_slot v.name (emit_stack_load reg)

-- `emitLoadFPROrImm`
unfoldable pub emit_fpr_value_load : ℕ → Value → Encoder → Encoder
unfolding emit_load_imm emit_inst at_slot emit_fpr_stack_load
emit_fpr_value_load reg v =
    if v.is_constant
    then (emit_load_imm 9 v.float >> emit_inst (bit_or 0x9e670120 (reg % 32)))
    else at_slot v.name (emit_fpr_stack_load reg)
