-- ===== src/Arm/Sound.antt =====
-- src/backend/arm64/ARM64Encoder.cpp: every step emits whole words and records its branches soundly.
use lsm_toolchain.Prelude.{
  ℕ, All-append, ◌%◌, ◌^◌, ◌≡◌, refl, arith, Bool, List, [], ◌∷◌, String, inl, inr, Option-cases,
  All, length, length-append,
}
use lsm_toolchain.Ssa.{Value}
use lsm_toolchain.Elf.{le}
use lsm_toolchain.Encode.{Code, Patch, entry, append_bytes, append_jump, mark}
use lsm_toolchain.Encode.Bytes.{word_at}
use lsm_toolchain.Encode.Growing.{
  IsSound, IsSound-append, IsSound-jump, IsSound-mark, Keeps, Keeps-then, Keeps-when, Keeps-if,
  Keeps-nothing,
}
use lsm_toolchain.Arm.Emit.{
  Encoder, emit_inst, emit_words, emit_branch, get_stack_offset, at_slot, emit_stack_store,
  emit_stack_load, emit_fpr_stack_store, emit_fpr_stack_load, emit_load_imm, load_imm_words,
  emit_value_load, emit_fpr_value_load,
}

-- Code, labels and branches stand at multiples of 4.
pub record IsAligned (c : Code) : Type 0 where
  pub whole : length c.bytes % 4 ≡ 0
  pub labels : All (λ (b : String × ℕ). b.1 % 4 ≡ 0) c.blocks
  pub branches : All (λ (p : Patch). p.location % 4 ≡ 0) c.patches

pub record IsValid (e : Encoder) : Type 0 where
  pub sound : IsSound e.asm
  pub aligned : IsAligned e.asm

abbrev pub Fine : (Encoder → Encoder) → Type 0
Fine m = Keeps IsValid m

IsAligned-append :
    (bs : List ℕ) (c : Code) → length bs ≡ 4 → IsAligned c → IsAligned (append_bytes bs c)
unfolding append_bytes
IsAligned-append bs c four h = record {
  whole = omega (arith, length-append c.bytes bs, h.whole);
  labels = h.labels;
  branches = h.branches;
}

IsAligned-jump :
    (l : String) (b : Bool) (bs : List ℕ) (c : Code)
    → length bs ≡ 4
    → IsAligned c
    → IsAligned (append_jump l b bs c)
unfolding append_jump
IsAligned-jump l b bs c four h = record {
  whole = omega (arith, length-append c.bytes bs, h.whole);
  labels = h.labels;
  branches = All-append (λ (p : Patch). p.location % 4 ≡ 0) c.patches _ h.branches (h.whole, tt);
}

IsAligned-mark : (l : String) (c : Code) → IsAligned c → IsAligned (mark l c)
unfolding mark
IsAligned-mark l c h = record {
  whole = h.whole;
  labels = (h.whole, h.labels);
  branches = h.branches;
}

pub IsValid-mark :
    (l : String) (e : Encoder) → IsValid e → IsValid (record e { asm = mark l e.asm })
IsValid-mark l e h = record {
  sound = IsSound-mark l e.asm h.sound;
  aligned = IsAligned-mark l e.asm h.aligned;
}

pub Fine-emit_inst : (w : ℕ) → Fine (emit_inst w)
unfolding emit_inst
Fine-emit_inst w = record {
  keep = λ e h. record {
    sound = IsSound-append (le 4 w) e.asm h.sound;
    aligned = IsAligned-append (le 4 w) e.asm refl h.aligned;
  };
}

Fine-emit_words : (ws : List ℕ) → Fine (emit_words ws)
unfolding emit_words
Fine-emit_words [] = Keeps-nothing
Fine-emit_words (w ∷ ws) = record {
  keep = λ e h. (Fine-emit_words ws).keep _ ((Fine-emit_inst w).keep e h);
}

pub Fine-emit_branch :
    (l : String) (b : Bool) (w : ℕ) → word_at (le 4 w) 0 % 2 ^ 26 ≡ 0 → Fine (emit_branch l b w)
unfolding emit_branch
Fine-emit_branch l b w blank = record {
  keep = λ e h. record {
    sound = IsSound-jump l b (le 4 w) e.asm refl blank h.sound;
    aligned = IsAligned-jump l b (le 4 w) e.asm refl h.aligned;
  };
}

IsValid-get_stack_offset : (v : String) (e : Encoder) → IsValid e → IsValid (get_stack_offset v e).1
unfolding get_stack_offset
IsValid-get_stack_offset v e h = elim (Option-cases (entry v e.stack_offsets)) [
  | inl new ↦ rw (new, get_stack_offset) (record { sound = h.sound; aligned = h.aligned })
  | inr (o, old) ↦ rw (old, get_stack_offset) h
]

pub Fine-at_slot :
    (v : String) (act : ℕ → Encoder → Encoder) → ((o : ℕ) → Fine (act o)) → Fine (at_slot v act)
unfolding at_slot
Fine-at_slot v act fine = record {
  keep = λ e h.
      (fine (get_stack_offset v e).0).keep (get_stack_offset v e).1
        (IsValid-get_stack_offset v e h);
}

pub Fine-emit_stack_store : (reg o : ℕ) → Fine (emit_stack_store reg o)
unfolding emit_stack_store
Fine-emit_stack_store reg o = Fine-emit_inst _

pub Fine-emit_stack_load : (reg o : ℕ) → Fine (emit_stack_load reg o)
unfolding emit_stack_load
Fine-emit_stack_load reg o = Fine-emit_inst _

pub Fine-emit_fpr_stack_store : (reg o : ℕ) → Fine (emit_fpr_stack_store reg o)
unfolding emit_fpr_stack_store
Fine-emit_fpr_stack_store reg o = Fine-emit_inst _

pub Fine-emit_fpr_stack_load : (reg o : ℕ) → Fine (emit_fpr_stack_load reg o)
unfolding emit_fpr_stack_load
Fine-emit_fpr_stack_load reg o = Fine-emit_inst _

pub Fine-store_slot : (v : String) (reg : ℕ) → Fine (at_slot v (emit_stack_store reg))
Fine-store_slot v reg = Fine-at_slot v (emit_stack_store reg) (Fine-emit_stack_store reg)

pub Fine-store_fpr_slot : (v : String) (reg : ℕ) → Fine (at_slot v (emit_fpr_stack_store reg))
Fine-store_fpr_slot v reg =
    Fine-at_slot v (emit_fpr_stack_store reg) (Fine-emit_fpr_stack_store reg)

Fine-emit_load_imm : (reg v : ℕ) → Fine (emit_load_imm reg v)
unfolding emit_load_imm
Fine-emit_load_imm reg v = Fine-emit_words (load_imm_words reg v)

pub Fine-emit_value_load : (reg : ℕ) (v : Value) → Fine (emit_value_load reg v)
unfolding emit_value_load
Fine-emit_value_load reg v =
    Keeps-if _ (Fine-emit_load_imm reg v.num)
      (Fine-at_slot v.name (emit_stack_load reg) (Fine-emit_stack_load reg))

pub Fine-emit_fpr_value_load : (reg : ℕ) (v : Value) → Fine (emit_fpr_value_load reg v)
unfolding emit_fpr_value_load
Fine-emit_fpr_value_load reg v =
    Keeps-if _ (Keeps-then (Fine-emit_load_imm 9 v.float) (Fine-emit_inst _))
      (Fine-at_slot v.name (emit_fpr_stack_load reg) (Fine-emit_fpr_stack_load reg))

pub ruleset arm_rules = (
  Fine-emit_inst, Fine-store_slot, Fine-store_fpr_slot, Fine-emit_value_load,
  Fine-emit_fpr_value_load, Keeps-then, Keeps-when, Keeps-if, Keeps-nothing,
)
