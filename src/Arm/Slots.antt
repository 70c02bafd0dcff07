-- ===== src/Arm/Slots.antt =====
-- src/backend/arm64/ARM64Encoder.cpp: what the processor reads in a move between a register and
-- the frame.
use lsm_toolchain.Prelude.{
  ℕ, length, ◌+◌, ◌*◌, ◌/◌, ◌%◌, ◌^◌, ◌<◌, ◌≡◌, refl, ap, ap₂, ◌∙◌, Bool, true, false, ◌&&◌, Option,
  none, some, ◌==◌, if◌then◌else◌, bit_or, arith,
}
use lsm_toolchain.Prelude.Or.{bit_or_low, bit_or_split, bit_or-zero}
use lsm_toolchain.Elf.{le}
use lsm_toolchain.Encode.{append_bytes}
use lsm_toolchain.Encode.Bytes.{word_at, word_at-end}
use lsm_toolchain.Arm.Emit.{
  Encoder, emit_inst, stack_word, emit_stack_store, emit_stack_load, emit_fpr_stack_store,
  emit_fpr_stack_load,
}

-- A load or store with an unsigned offset: the place is the base register plus the offset.
pub record Move : Type 0 where
  pub is_load : Bool
  pub of_vector : Bool
  pub register : ℕ
  pub base : ℕ
  pub offset : ℕ
  pub size : ℕ

-- Bits 30 and up are the logarithm of the size, 27 to 29 are 7, 26 tells vector registers from
-- general ones, 24 and 25 are 1, 22 and 23 are 0 in a store and 1 in a load, 10 to 21 the offset
-- in units of the size, 5 to 9 the base and 0 to 4 the register.
abbrev pub read_word : ℕ → Option Move
read_word w =
    if (w / 2 ^ 27 % 8 == 7) && ((w / 2 ^ 24 % 4 == 1) && (w / 2 ^ 23 % 2 == 0))
    then some (record {
      is_load = w / 2 ^ 22 % 2 == 1;
      of_vector = w / 2 ^ 26 % 2 == 1;
      register = w % 32;
      base = w / 2 ^ 5 % 32;
      offset = w / 2 ^ 10 % 2 ^ 12 * 2 ^ (w / 2 ^ 30);
      size = 2 ^ (w / 2 ^ 30);
    })
    else none

stack_word-value :
    (p reg o : ℕ)
    → reg < 32
    → stack_word (p * 2 ^ 22 + 0x3e0) reg o
      ≡ p * 2 ^ 22 + o / 8 % 2 ^ 12 * 2 ^ 10 + 31 * 2 ^ 5 + reg
unfolding stack_word
stack_word-value p reg o r =
    let imm = o / 8 % 2 ^ 12 in
    let left : p * 2 ^ 22 + 0x3e0 ≡ p * 2 ^ 12 * 2 ^ 10 + 0x3e0 = omega arith in
    let right : imm * 2 ^ 10 ≡ imm * 2 ^ 10 + 0 = omega arith in
    let inner : bit_or (p * 2 ^ 22 + 0x3e0) (imm * 2 ^ 10) ≡ (p * 2 ^ 12 + imm) * 2 ^ 10 + 0x3e0 =
      ap₂ bit_or left right
      ∙ bit_or_split 10 (p * 2 ^ 12) 0x3e0 imm 0 (omega arith) (omega arith)
      ∙ ap₂ (λ m n. m * 2 ^ 10 + n) (bit_or_low 12 p imm (omega arith)) (bit_or-zero 0x3e0) in
    let even : (p * 2 ^ 12 + imm) * 2 ^ 10 + 0x3e0 ≡ ((p * 2 ^ 12 + imm) * 32 + 31) * 2 ^ 5 =
      omega arith in
    let low : reg % 32 ≡ reg = omega arith in
    ap₂ bit_or (inner ∙ even) low ∙ bit_or_low 5 ((p * 2 ^ 12 + imm) * 32 + 31) reg r ∙ omega arith

-- the reading of a move to or from the frame, by the bits of its opcode
read_word-stack_word :
    (scale vector load reg o : ℕ)
    → scale < 4
    → vector < 2
    → load < 2
    → reg < 32
    → o < 2 ^ 15
    → o % 8 ≡ 0
    → read_word (
        stack_word
          ((scale * 2 ^ 8 + 7 * 2 ^ 5 + vector * 2 ^ 4 + 2 ^ 2 + load) * 2 ^ 22 + 0x3e0)
          reg
          o)
      ≡ some (record {
        is_load = load == 1;
        of_vector = vector == 1;
        register = reg;
        base = 31;
        offset = o / 8 * 2 ^ scale;
        size = 2 ^ scale;
      })
read_word-stack_word scale vector load reg o hs hv hl hr ho ha =
    let p = scale * 2 ^ 8 + 7 * 2 ^ 5 + vector * 2 ^ 4 + 2 ^ 2 + load in
    let w = stack_word (p * 2 ^ 22 + 0x3e0) reg o in
    let value : w ≡ p * 2 ^ 22 + o / 8 % 2 ^ 12 * 2 ^ 10 + 31 * 2 ^ 5 + reg =
      stack_word-value p reg o hr in
    let kind : w / 2 ^ 27 % 8 ≡ 7 = omega (arith, value) in
    let mode : w / 2 ^ 24 % 4 ≡ 1 = omega (arith, value) in
    let opc : w / 2 ^ 23 % 2 ≡ 0 = omega (arith, value) in
    let is_load : w / 2 ^ 22 % 2 ≡ load = omega (arith, value) in
    let of_vector : w / 2 ^ 26 % 2 ≡ vector = omega (arith, value) in
    let register : w % 32 ≡ reg = omega (arith, value) in
    let base : w / 2 ^ 5 % 32 ≡ 31 = omega (arith, value) in
    let imm : w / 2 ^ 10 % 2 ^ 12 ≡ o / 8 = omega (arith, value) in
    let size : w / 2 ^ 30 ≡ scale = omega (arith, value) in
    rw (kind, mode, opc, is_load, of_vector, register, base, imm, size) refl

abbrev pub general : Bool → ℕ → ℕ → Move
general load reg o = record {
  is_load = load;
  of_vector = false;
  register = reg;
  base = 31;
  offset = o;
  size = 8;
}

abbrev pub half : Bool → ℕ → ℕ → Move
half load reg o = record {
  is_load = load;
  of_vector = true;
  register = reg;
  base = 31;
  offset = o / 8 * 4;
  size = 4;
}

-- the word of an instruction, where it was appended
word_at-emit_inst :
    (w : ℕ) (e : Encoder) → w < 2 ^ 32 → word_at (emit_inst w e).asm.bytes (length e.asm.bytes) ≡ w
unfolding emit_inst append_bytes
word_at-emit_inst w e h = word_at-end e.asm.bytes (le 4 w) ∙ (unfold word_at in omega (arith, h))

emitted :
    (p reg o : ℕ) (m : Option Move) (e : Encoder)
    → reg < 32
    → p < 2 ^ 10
    → read_word (stack_word (p * 2 ^ 22 + 0x3e0) reg o) ≡ m
    → read_word (
        word_at
          (emit_inst (stack_word (p * 2 ^ 22 + 0x3e0) reg o) e).asm.bytes
          (length e.asm.bytes))
      ≡ m
emitted p reg o m e hr hp read =
    let value = stack_word-value p reg o hr in
    ap read_word (word_at-emit_inst _ e (omega (arith, value))) ∙ read

-- For each slot of the frame whose offset is a multiple of 8 below 2^15: the word that a store or
-- load of a general register appends to the code moves its eight bytes between the register and
-- the slot at that offset from sp; but the word of a store or load of a vector register moves four
-- bytes, at half the offset.
pub slot_moves :
    (reg o : ℕ) (e : Encoder)
    → reg < 32
    → o < 2 ^ 15
    → o % 8 ≡ 0
    → let n = length e.asm.bytes in
      (read_word (word_at (emit_stack_store reg o e).asm.bytes n) ≡ some (general false reg o))
      × (read_word (word_at (emit_stack_load reg o e).asm.bytes n) ≡ some (general true reg o))
      × (read_word (word_at (emit_fpr_stack_store reg o e).asm.bytes n) ≡ some (half false reg o))
      × (read_word (word_at (emit_fpr_stack_load reg o e).asm.bytes n) ≡ some (half true reg o))
unfolding emit_stack_store emit_stack_load emit_fpr_stack_store emit_fpr_stack_load
slot_moves reg o e hr ho ha =
    let whole : o / 8 * 2 ^ 3 ≡ o = omega arith in
    (
      emitted 0x3e4 reg o _ e hr (omega arith) (
          read_word-stack_word 3 0 0 reg o (omega arith) (omega arith) (omega arith) hr ho ha
          ∙ ap (λ n. some (general false reg n)) whole),
      emitted 0x3e5 reg o _ e hr (omega arith) (
          read_word-stack_word 3 0 1 reg o (omega arith) (omega arith) (omega arith) hr ho ha
          ∙ ap (λ n. some (general true reg n)) whole),
      emitted 0x2f4 reg o _ e hr (omega arith)
          (read_word-stack_word 2 1 0 reg o (omega arith) (omega arith) (omega arith) hr ho ha),
      emitted 0x2f5 reg o _ e hr (omega arith)
          (read_word-stack_word 2 1 1 reg o (omega arith) (omega arith) (omega arith) hr ho ha),
    )
