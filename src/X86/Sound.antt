-- ===== src/X86/Sound.antt =====
-- src/backend/x86_64/X86_64Encoder.cpp: every step records its jumps inside the code, and apart.
use lsm_toolchain.Prelude.{
  ℕ, ◌≡◌, refl, sym, subst, arith, Bool, true, false, List, ◌∷◌, String, if◌then◌else◌,
}
use lsm_toolchain.Ssa.{Value, Instruction}
use lsm_toolchain.Elf.{le}
use lsm_toolchain.Encode.Bytes.{word_at}
use lsm_toolchain.Encode.Growing.{
  IsSound, IsSound-append, IsSound-jump, IsSound-mark, Keeps, Keeps-then, Keeps-when,
}
use lsm_toolchain.X86.Emit.{
  Encoder, emit, emit_int32, emit_int64, emit_jump, get_stack_offset, at_slot, emit_stack_load,
  emit_stack_store, emit_xmm_load, emit_xmm_store, emit_value_store, emit_xmm_value_store,
  emit_text, emit_value_load, emit_xmm_value_load,
}
use lsm_toolchain.X86.Instructions.{store_result, store_xmm_result}

abbrev pub Fine : (Encoder → Encoder) → Type 0
Fine m = Keeps (λ (e : Encoder). IsSound e.asm) m

pub Fine-emit : (bs : List ℕ) → Fine (emit bs)
unfolding emit
Fine-emit bs = record { keep = λ e h. IsSound-append bs e.asm h }

pub Fine-emit_int32 : (v : ℕ) → Fine (emit_int32 v)
unfolding emit_int32
Fine-emit_int32 v = Fine-emit _

pub Fine-emit_int64 : (v : ℕ) → Fine (emit_int64 v)
unfolding emit_int64
Fine-emit_int64 v = Fine-emit _

pub Fine-emit_jump : (l : String) → Fine (emit_jump l)
unfolding emit_jump word_at
Fine-emit_jump l = record { keep = λ e h. IsSound-jump l false (le 4 0) e.asm refl refl h }

pub Fine-if : {m k : Encoder → Encoder} (b : Bool) → Fine m → Fine k → Fine (if b then m else k)
Fine-if true hm hk = hm
Fine-if false hm hk = hk

asm-get_stack_offset : (v : String) (e : Encoder) → (get_stack_offset v e).1.asm ≡ e.asm
unfolding get_stack_offset
asm-get_stack_offset v e = ground arith

pub Fine-at_slot :
    (v : String) (act : ℕ → Encoder → Encoder) → ((o : ℕ) → Fine (act o)) → Fine (at_slot v act)
unfolding at_slot
Fine-at_slot v act fine = record {
  keep = λ e h.
      let (o, e') = get_stack_offset v e in
      (fine o).keep e' (subst IsSound (sym (asm-get_stack_offset v e)) h);
}

pub Fine-emit_value_store : (reg : ℕ) (v : String) → Fine (emit_value_store reg v)
unfolding emit_value_store
Fine-emit_value_store reg v = Fine-at_slot v (emit_stack_store reg) (λ o. Fine-emit _)

pub Fine-emit_xmm_value_store : (reg : ℕ) (v : String) → Fine (emit_xmm_value_store reg v)
unfolding emit_xmm_value_store
Fine-emit_xmm_value_store reg v = Fine-at_slot v (emit_xmm_store reg) (λ o. Fine-emit _)

pub Fine-emit_text : (address : List String → ℕ) (s : String) → Fine (emit_text address s)
unfolding emit_text
Fine-emit_text address s = record {
  keep = λ e h.
      (Fine-emit_int64 (address (s ∷ e.string_pool))).keep
        (record e { string_pool = s ∷ e.string_pool }) h;
}

pub Fine-emit_value_load :
    (address : List String → ℕ) (reg : ℕ) (v : Value) → Fine (emit_value_load address reg v)
unfolding emit_value_load
Fine-emit_value_load address reg v =
    Fine-if v.is_constant
      (Keeps-then (Fine-emit _) (Fine-if _ (Fine-emit_text address v.str) (Fine-emit_int64 v.num)))
      (Fine-at_slot v.name (emit_stack_load reg) (λ o. Fine-emit _))

pub Fine-emit_xmm_value_load : (reg : ℕ) (v : Value) → Fine (emit_xmm_value_load reg v)
unfolding emit_xmm_value_load
Fine-emit_xmm_value_load reg v =
    Fine-if v.is_constant
      (Keeps-then (Keeps-then (Fine-emit _) (Fine-emit_int64 v.float)) (Fine-emit _))
      (Fine-at_slot v.name (emit_xmm_load reg) (λ o. Fine-emit _))

pub Fine-store_result : (reg : ℕ) (i : Instruction) → Fine (store_result reg i)
unfolding store_result
Fine-store_result reg i = Keeps-when _ (Fine-emit_value_store reg i.result.name)

pub Fine-store_xmm_result : (i : Instruction) → Fine (store_xmm_result i)
unfolding store_xmm_result
Fine-store_xmm_result i = Keeps-when _ (Fine-emit_xmm_value_store 0 i.result.name)

pub ruleset step_rules = (
  Fine-emit, Fine-emit_int32, Fine-emit_int64, Fine-emit_jump, Keeps-then, Keeps-when, Fine-if,
  Fine-emit_value_load, Fine-emit_xmm_value_load, Fine-emit_value_store, Fine-emit_xmm_value_store,
  Fine-store_result, Fine-store_xmm_result,
)
