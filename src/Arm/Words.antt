-- ===== src/Arm/Words.antt =====
-- src/backend/arm64/ARM64Encoder.cpp: what the processor does with the words of the emitters.
use lsm_toolchain.Prelude.{
  ℕ, ◌+◌, ◌-◌, ◌*◌, ◌/◌, ◌%◌, ◌^◌, ◌<◌, ◌≡◌, refl, ap, subst, ◌∙◌, inl, inr, List, [], ◌∷◌, ◌++◌,
  Option, none, some, Option-cases, ◌==◌, ==_iff, ◌&&◌, not, Bool-cases, if◌then◌else◌, bit_or,
  arith,
}
use native.Mathlib.Nat.{div-eq_of_lt}
use lsm_toolchain.Prelude.Or.{bit_or_low}
use lsm_toolchain.Arm.Emit.{wide_word, keep_word, load_imm_words}

-- a register's new value; a write to register 31 of these instructions is lost
abbrev pub set_register : ℕ → ℕ → (ℕ → ℕ) → ℕ → ℕ
set_register reg v regs r = if (r == reg) && not (reg == 31) then v else regs r

-- `old` with the sixteen bits from `2^s` on replaced
abbrev pub insert_bits : ℕ → ℕ → ℕ → ℕ
insert_bits s part old = old - old / 2 ^ s % 2 ^ 16 * 2 ^ s + part * 2 ^ s

-- The instructions `movz` and `movk` of 64 bits. Bits 23 and up are the operation, 21 and 22 the
-- shift in sixteens, 5 to 20 the value, 0 to 4 the register.
abbrev pub move_wide : ℕ → (ℕ → ℕ) → Option (ℕ → ℕ)
move_wide w regs =
    let s = w / 2 ^ 21 % 4 * 16 in
    let part = w / 2 ^ 5 % 2 ^ 16 in
    let reg = w % 32 in
    if w / 2 ^ 23 == 0x1a5
    then some (set_register reg (part * 2 ^ s) regs)
    else if w / 2 ^ 23 == 0x1e5
    then some (set_register reg (insert_bits s part (regs reg)) regs)
    else none

abbrev pub run : List ℕ → (ℕ → ℕ) → Option (ℕ → ℕ)
run [] regs = some regs
run (w ∷ ws) regs = elim (move_wide w regs) [ none ↦ none | some regs' ↦ run ws regs' ]

wide_word-value :
    (p reg part : ℕ)
    → part < 2 ^ 16
    → reg < 32
    → wide_word (p * 2 ^ 21) reg part ≡ p * 2 ^ 21 + part * 2 ^ 5 + reg
unfolding wide_word
wide_word-value p reg part h r =
    let e : p * 2 ^ 21 + part * 2 ^ 5 ≡ (p * 2 ^ 16 + part) * 2 ^ 5 = omega arith in
    let low : reg % 32 ≡ reg = omega arith in
    ap (λ n. bit_or n (reg % 32)) (bit_or_low 21 p (part * 2 ^ 5) (omega arith) ∙ e)
    ∙ ap (bit_or ((p * 2 ^ 16 + part) * 2 ^ 5)) low
    ∙ bit_or_low 5 (p * 2 ^ 16 + part) reg r
    ∙ omega arith

move_wide-movz :
    (reg part : ℕ) (regs : ℕ → ℕ)
    → part < 2 ^ 16
    → reg < 32
    → move_wide (wide_word 0xd2800000 reg part) regs ≡ some (set_register reg part regs)
move_wide-movz reg part regs h r =
    let w = wide_word 0xd2800000 reg part in
    let value : w ≡ 0x694 * 2 ^ 21 + part * 2 ^ 5 + reg = wide_word-value 0x694 reg part h r in
    let op : w / 2 ^ 23 ≡ 0x1a5 = omega (arith, value) in
    let hw : w / 2 ^ 21 % 4 ≡ 0 = omega (arith, value) in
    let imm : w / 2 ^ 5 % 2 ^ 16 ≡ part = omega (arith, value) in
    let rd : w % 32 ≡ reg = omega (arith, value) in
    let one : part * 2 ^ (0 * 16) ≡ part = omega arith in rw (op, hw, imm, rd, one) refl

move_wide-movk :
    (hw reg part : ℕ) (regs : ℕ → ℕ)
    → hw < 4
    → part < 2 ^ 16
    → reg < 32
    → move_wide (wide_word ((0x794 + hw) * 2 ^ 21) reg part) regs
      ≡ some (set_register reg (insert_bits (hw * 16) part (regs reg)) regs)
move_wide-movk hw reg part regs hws h r =
    let w = wide_word ((0x794 + hw) * 2 ^ 21) reg part in
    let value : w ≡ (0x794 + hw) * 2 ^ 21 + part * 2 ^ 5 + reg =
      wide_word-value (0x794 + hw) reg part h r in
    let op : w / 2 ^ 23 ≡ 0x1e5 = omega (arith, value) in
    let shift : w / 2 ^ 21 % 4 ≡ hw = omega (arith, value) in
    let imm : w / 2 ^ 5 % 2 ^ 16 ≡ part = omega (arith, value) in
    let rd : w % 32 ≡ reg = omega (arith, value) in rw (op, shift, imm, rd) refl

-- The words put a value into a register and leave all others.
record Loads (ws : List ℕ) (regs : ℕ → ℕ) (reg x : ℕ) : Type 0 where
  after : ℕ → ℕ
  ran : run ws regs ≡ some after
  value : after reg ≡ x
  rest : (r : ℕ) → ¬ (r ≡ reg) → after r ≡ regs r

run-append :
    (xs ys : List ℕ) (regs after : ℕ → ℕ)
    → run xs regs ≡ some after
    → run (xs ++ ys) regs ≡ run ys after
run-append [] ys regs after e = let same : regs ≡ after = cc in ap (run ys) same
run-append (w ∷ ws) ys regs after e = elim (Option-cases (move_wide w regs)) [
  | inl fails ↦ absurd cc
  | inr (next, runs) ↦ rw (runs, run) (run-append ws ys next after (rw (runs, run) at e))
]

Loads-append :
    (xs ys : List ℕ) (regs : ℕ → ℕ) (reg x y : ℕ)
    → (l : Loads xs regs reg x) → Loads ys l.after reg y
    → Loads (xs ++ ys) regs reg y
Loads-append xs ys regs reg x y l k = record {
  after = k.after;
  ran = run-append xs ys regs l.after l.ran ∙ k.ran;
  value = k.value;
  rest = λ r other. k.rest r other ∙ l.rest r other;
}

set_register-same : (reg v : ℕ) (regs : ℕ → ℕ) → reg < 31 → set_register reg v regs reg ≡ v
set_register-same reg v regs h = ground arith

set_register-other :
    (reg v : ℕ) (regs : ℕ → ℕ) (r : ℕ) → ¬ (r ≡ reg) → set_register reg v regs r ≡ regs r
set_register-other reg v regs r other = ground arith

Loads-word :
    (w reg v : ℕ) (regs : ℕ → ℕ)
    → reg < 31
    → move_wide w regs ≡ some (set_register reg v regs)
    → Loads (w ∷ []) regs reg v
Loads-word w reg v regs h e = record {
  after = set_register reg v regs;
  ran = rw (e, run) refl;
  value = set_register-same reg v regs h;
  rest = set_register-other reg v regs;
}

insert_bits-add : (s part old : ℕ) → old < 2 ^ s → insert_bits s part old ≡ old + part * 2 ^ s
insert_bits-add s part old h =
    let zero_above : old / 2 ^ s % 2 ^ 16 ≡ 0 = ap (λ n. n % 2 ^ 16) (div-eq_of_lt h) in
    rw zero_above (omega arith)

-- `movk`, which is left out where it would add nothing
Loads-keep_word :
    (hw reg part : ℕ) (regs : ℕ → ℕ) (x : ℕ)
    → hw < 4
    → part < 2 ^ 16
    → reg < 31
    → regs reg ≡ x
    → x < 2 ^ (hw * 16)
    → Loads (keep_word ((0x794 + hw) * 2 ^ 21) reg part) regs reg (x + part * 2 ^ (hw * 16))
unfolding keep_word
Loads-keep_word hw reg part regs x h hp hr e hx = elim (Bool-cases (part == 0)) [
  | inl none_set ↦
      let z : part ≡ 0 = (==_iff part 0).0 none_set in
      rw (none_set, keep_word)
        (record {
          after = regs;
          ran = refl;
          value = e ∙ rw z (omega arith);
          rest = λ r other. refl;
        })
  | inr some_set ↦
      let sum : insert_bits (hw * 16) part (regs reg) ≡ x + part * 2 ^ (hw * 16) =
        ap (insert_bits (hw * 16) part) e ∙ insert_bits-add (hw * 16) part x hx in
      rw (some_set, keep_word)
        (Loads-word (wide_word ((0x794 + hw) * 2 ^ 21) reg part) reg (x + part * 2 ^ (hw * 16)) regs
          hr
          (move_wide-movk hw reg part regs h hp (omega arith)
            ∙ ap (λ v. some (set_register reg v regs)) sum))
]

load_imm_words-Loads :
    (reg v : ℕ) (regs : ℕ → ℕ) → reg < 31 → v < 2 ^ 64 → Loads (load_imm_words reg v) regs reg v
unfolding load_imm_words
load_imm_words-Loads reg v regs hr hv =
    let p0 = v % 2 ^ 16 in
    let p1 = v / 2 ^ 16 % 2 ^ 16 in
    let p2 = v / 2 ^ 32 % 2 ^ 16 in
    let p3 = v / 2 ^ 48 % 2 ^ 16 in
    let all : p0 + p1 * 2 ^ 16 + p2 * 2 ^ 32 + p3 * 2 ^ 48 ≡ v = omega arith in
    let l0 =
      Loads-word (wide_word 0xd2800000 reg p0) reg p0 regs hr
        (move_wide-movz reg p0 regs (omega arith) (omega arith)) in
    let l1 =
      Loads-keep_word 1 reg p1 l0.after p0 (omega arith) (omega arith) hr l0.value (omega arith) in
    let l2 =
      Loads-keep_word 2 reg p2 l1.after (p0 + p1 * 2 ^ 16) (omega arith) (omega arith) hr l1.value
        (omega arith) in
    let l3 =
      Loads-keep_word 3 reg p3 l2.after (p0 + p1 * 2 ^ 16 + p2 * 2 ^ 32) (omega arith) (omega arith)
        hr l2.value (omega arith) in
    subst (Loads (load_imm_words reg v) regs reg) all (
      Loads-append (wide_word 0xd2800000 reg p0 ∷ [])
        (keep_word 0xf2a00000 reg p1
          ++ (keep_word 0xf2c00000 reg p2 ++ keep_word 0xf2e00000 reg p3))
        regs reg p0 _ l0
        (Loads-append (keep_word 0xf2a00000 reg p1)
          (keep_word 0xf2c00000 reg p2 ++ keep_word 0xf2e00000 reg p3) l0.after reg _ _ l1
          (Loads-append (keep_word 0xf2c00000 reg p2) (keep_word 0xf2e00000 reg p3) l1.after reg _ _
            l2 l3)))

-- The words that load a 64-bit constant into a register below 31, executed in any state of the
-- registers, leave that constant in the register and any other register as it was.
pub run-load_imm_words :
    (reg v r : ℕ) (regs : ℕ → ℕ)
    → reg < 31
    → v < 2 ^ 64
    → ¬ (r ≡ reg)
    → (after : ℕ → ℕ) × (run (load_imm_words reg v) regs ≡ some after)
      × (after reg ≡ v)
      × (after r ≡ regs r)
run-load_imm_words reg v r regs hr hv other =
    let l = load_imm_words-Loads reg v regs hr hv in (l.after, l.ran, l.value, l.rest r other)
