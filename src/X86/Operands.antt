-- ===== src/X86/Operands.antt =====
-- src/backend/x86_64/X86_64Encoder.cpp: what the processor reads in a move between a register and
-- the frame.
use lsm_toolchain.Prelude.{
  ℕ, zero, suc, ◌+◌, ◌-◌, ◌*◌, ◌/◌, ◌%◌, ◌^◌, ◌<◌, ◌≡◌, refl, ap, ◌∙◌, Bool, true, false, ◌&&◌,
  List, [], ◌∷◌, Option, none, some, ltb, leb, ◌==◌, ==_iff, if◌then◌else◌, bit_or, bit_and, inl,
  inr, Bool-cases, arith,
}
use lsm_toolchain.Elf.{le}
use lsm_toolchain.X86.Emit.{rex, is_short, stack_move}

abbrev pub four_bytes : List ℕ → Option ℕ
four_bytes (a ∷ b ∷ c ∷ d ∷ []) = some (a + 256 * b + 65536 * c + 16777216 * d)
four_bytes _ = none

abbrev pub one_byte : List ℕ → Option ℕ
one_byte (a ∷ []) = some (if ltb a 128 then a else a + (2 ^ 32 - 256))
one_byte _ = none

-- the displacement behind a ModRM byte of mode 1 (one signed byte) or 2 (four bytes), as a
-- 32-bit pattern
abbrev pub displacement : ℕ → List ℕ → Option ℕ
displacement mode bs = if mode == 1 then one_byte bs else if mode == 2 then four_bytes bs else none

-- A 64-bit move whose memory operand is `[rbp + displacement]`, with no other prefix: its opcode,
-- its register and its displacement.
abbrev pub read_move : List ℕ → Option (ℕ × ℕ × ℕ)
read_move (prefix ∷ opcode ∷ modrm ∷ rest) =
    if (prefix / 8 == 9) && ((prefix % 4 == 0) && (modrm % 8 == 5))
    then elim (displacement (modrm / 64) rest) [
      | none ↦ none
      | some d ↦ some (opcode, prefix / 4 % 2 * 8 + modrm / 8 % 8, d)
    ]
    else none
read_move _ = none

-- a test that holds for every number below a bound
all_under : ℕ → (ℕ → Bool) → Bool
all_under zero p = true
all_under (suc n) p = p n && all_under n p

all_under_sound : (n : ℕ) (p : ℕ → Bool) (x : ℕ) → all_under n p ≡ true → x < n → p x ≡ true
unfolding all_under
all_under_sound zero p x h lt = absurd (omega arith)
all_under_sound (suc n) p x h lt = ground (arith, all_under_sound n p x)

-- what the prefix and the ModRM byte say of each of the sixteen registers
abbrev says : ℕ → ℕ → ℕ → Bool
says base mode reg =
    let prefix = rex true (leb 8 reg) false false in
    let modrm = bit_or base (bit_and reg 7 * 8) in
    (prefix / 8 == 9)
    && ((prefix % 4 == 0)
        && ((modrm % 8 == 5)
            && ((modrm / 64 == mode) && (prefix / 4 % 2 * 8 + modrm / 8 % 8 == reg))))

short_table : all_under 16 (says 0x45 1) ≡ true
unfolding all_under
short_table = refl

long_table : all_under 16 (says 0x85 2) ≡ true
unfolding all_under
long_table = refl

and-true : (a b : Bool) → (a && b) ≡ true → (a ≡ true) × (b ≡ true)
and-true true b h = (refl, h)
and-true false b h = cc

-- the processor's reading, from the five facts
read_move-facts :
    (prefix opcode modrm mode reg : ℕ) (bs : List ℕ) (d : ℕ)
    → ((prefix / 8 == 9)
        && ((prefix % 4 == 0)
            && ((modrm % 8 == 5)
                && ((modrm / 64 == mode) && (prefix / 4 % 2 * 8 + modrm / 8 % 8 == reg)))))
      ≡ true
    → displacement mode bs ≡ some d
    → read_move (prefix ∷ opcode ∷ modrm ∷ bs) ≡ some (opcode, reg, d)
read_move-facts prefix opcode modrm mode reg bs d h e =
    let (a, h1) = and-true (prefix / 8 == 9) _ h in
    let (b, h2) = and-true (prefix % 4 == 0) _ h1 in
    let (c, h3) = and-true (modrm % 8 == 5) _ h2 in
    let (m, r) = and-true (modrm / 64 == mode) _ h3 in
    let mode_is : modrm / 64 ≡ mode = (==_iff (modrm / 64) mode).0 m in
    let reg_is : prefix / 4 % 2 * 8 + modrm / 8 % 8 ≡ reg = (==_iff _ reg).0 r in
    let disp : displacement (modrm / 64) bs ≡ some d = ap (λ k. displacement k bs) mode_is ∙ e in
    rw (a, b, c, disp) (ap (λ k. some (opcode, k, d)) reg_is)

read_move-says :
    (base mode opcode reg : ℕ) (bs : List ℕ) (d : ℕ)
    → says base mode reg ≡ true
    → displacement mode bs ≡ some d
    → read_move (rex true (leb 8 reg) false false ∷ opcode ∷ bit_or base (bit_and reg 7 * 8) ∷ bs)
      ≡ some (opcode, reg, d)
read_move-says base mode opcode reg bs d h e =
    read_move-facts (rex true (leb 8 reg) false false) opcode (bit_or base (bit_and reg 7 * 8)) mode
      reg bs d h e

-- A move between a register and a slot of the frame is read back by the processor as just that:
-- its opcode, its register and its offset, whichever of the two lengths is chosen for the offset.
pub read_move-stack_move :
    (opcode reg o : ℕ)
    → reg < 16
    → o < 2 ^ 32
    → read_move (stack_move opcode reg o) ≡ some (opcode, reg, o)
unfolding stack_move
read_move-stack_move opcode reg o r w = elim (Bool-cases (is_short o)) [
  | inl short ↦
      rw (short, stack_move)
        (read_move-says 0x45 1 opcode reg (o % 256 ∷ []) o
          (all_under_sound 16 (says 0x45 1) reg short_table r) (ground (arith, short)))
  | inr long ↦
      rw (long, stack_move)
        (read_move-says 0x85 2 opcode reg (le 4 o) o
          (all_under_sound 16 (says 0x85 2) reg long_table r) (ap some (omega arith)))
]
