-- ===== src/X86/SoundOps.antt =====
-- src/backend/x86_64/X86_64Encoder.cpp: the cases of `encodeInstruction` record their jumps soundly.
use lsm_toolchain.Prelude.{ℕ, List, [], ◌∷◌, String, inl, inr, Option-cases, Bool-cases}
use lsm_toolchain.Ssa.{Value, Instruction}
use lsm_toolchain.RegAlloc.Interval.{is_float}
use lsm_toolchain.Encode.{entry}
use lsm_toolchain.X86.Instructions.{
  touch_base, emit_element, encode_arith, encode_division, encode_float, encode_vector, encode_copy,
  encode_compare, encode_float_compare, encode_array_alloc, array_load_at, encode_array_load,
  array_store_at, encode_array_store, encode_set_register, encode_port_read, encode_port_write,
  encode_volatile_load, encode_volatile_store, encode_cond_branch, load_return, encode_return,
}
use lsm_toolchain.X86.Sound.{Fine, Fine-emit_value_load, Fine-emit_xmm_value_load, step_rules}

module _ (address : List String → ℕ) where
  pub Fine-encode_arith : (i : Instruction) → Fine (encode_arith address i)
  unfolding encode_arith
  Fine-encode_arith i = search step_rules

  pub Fine-encode_division : (t : ℕ) (i : Instruction) → Fine (encode_division address t i)
  unfolding encode_division
  Fine-encode_division t i = search step_rules

  pub Fine-encode_copy : (i : Instruction) → Fine (encode_copy address i)
  unfolding encode_copy
  Fine-encode_copy i = search step_rules

  pub Fine-encode_float : (i : Instruction) → Fine (encode_float address i)
  unfolding encode_float
  Fine-encode_float i = search step_rules

  pub Fine-encode_vector : (i : Instruction) → Fine (encode_vector address i)
  unfolding encode_vector
  Fine-encode_vector i = search step_rules

  pub Fine-encode_compare : (i : Instruction) → Fine (encode_compare address i)
  unfolding encode_compare
  Fine-encode_compare i = search step_rules depth 9

  pub Fine-encode_float_compare : (i : Instruction) → Fine (encode_float_compare address i)
  unfolding encode_float_compare
  Fine-encode_float_compare i = search step_rules depth 9

  pub Fine-encode_set_register : (i : Instruction) → Fine (encode_set_register address i)
  unfolding encode_set_register
  Fine-encode_set_register i = search step_rules

  pub Fine-encode_port_read : (i : Instruction) → Fine (encode_port_read address i)
  unfolding encode_port_read
  Fine-encode_port_read i = search step_rules

  pub Fine-encode_port_write : (i : Instruction) → Fine (encode_port_write address i)
  unfolding encode_port_write
  Fine-encode_port_write i = search step_rules

  pub Fine-encode_volatile_load : (i : Instruction) → Fine (encode_volatile_load address i)
  unfolding encode_volatile_load
  Fine-encode_volatile_load i = search step_rules

  pub Fine-encode_volatile_store : (i : Instruction) → Fine (encode_volatile_store address i)
  unfolding encode_volatile_store
  Fine-encode_volatile_store i = search step_rules

  pub Fine-encode_cond_branch : (i : Instruction) → Fine (encode_cond_branch address i)
  unfolding encode_cond_branch
  Fine-encode_cond_branch i = search step_rules depth 9

  pub Fine-load_return : (vs : List Value) → Fine (load_return address vs)
  unfolding load_return
  Fine-load_return [] = record { keep = λ e h. h }
  Fine-load_return (v ∷ vs) = elim (Bool-cases (is_float v.type)) [
    | inl float ↦ record { keep = λ e h. rw float ((Fine-emit_xmm_value_load 0 v).keep e h) }
    | inr int ↦ record { keep = λ e h. rw int ((Fine-emit_value_load address 0 v).keep e h) }
  ]

  pub Fine-encode_return : (i : Instruction) → Fine (encode_return address i)
  unfolding encode_return
  Fine-encode_return i = search (step_rules, Fine-load_return)

  pub Fine-touch_base : (name : String) → Fine (touch_base name)
  unfolding touch_base
  Fine-touch_base name = record {
    keep = λ e h. elim (Option-cases (entry name e.array_base_offsets)) [
      | inl new ↦ rw (new, touch_base) h
      | inr (o, old) ↦ rw (old, touch_base) h
    ];
  }

  pub Fine-emit_element : (o : ℕ) → Fine (emit_element o)
  unfolding emit_element
  Fine-emit_element o = search step_rules

  pub Fine-encode_array_alloc : (i : Instruction) → Fine (encode_array_alloc i)
  unfolding encode_array_alloc
  Fine-encode_array_alloc i = record { keep = λ e h. h }

  pub Fine-array_load_at : (o : ℕ) (i : Instruction) → Fine (array_load_at address o i)
  unfolding array_load_at
  Fine-array_load_at o i = search (step_rules, Fine-touch_base, Fine-emit_element) depth 9

  pub Fine-array_store_at : (o : ℕ) (i : Instruction) → Fine (array_store_at address o i)
  unfolding array_store_at
  Fine-array_store_at o i = search (step_rules, Fine-touch_base, Fine-emit_element) depth 9

  pub Fine-encode_array_load : (i : Instruction) → Fine (encode_array_load address i)
  unfolding encode_array_load
  Fine-encode_array_load i = record { keep = λ e h. (Fine-array_load_at _ i).keep e h }

  pub Fine-encode_array_store : (i : Instruction) → Fine (encode_array_store address i)
  unfolding encode_array_store
  Fine-encode_array_store i = record { keep = λ e h. (Fine-array_store_at _ i).keep e h }

  pub ruleset op_rules = (
    Fine-encode_arith, Fine-encode_division, Fine-encode_float, Fine-encode_vector,
    Fine-encode_copy, Fine-encode_compare, Fine-encode_float_compare, Fine-encode_array_alloc,
    Fine-encode_array_load, Fine-encode_array_store, Fine-encode_set_register,
    Fine-encode_port_read, Fine-encode_port_write, Fine-encode_volatile_load,
    Fine-encode_volatile_store, Fine-encode_cond_branch, Fine-encode_return,
  )
