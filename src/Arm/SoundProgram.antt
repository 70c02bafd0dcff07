-- ===== src/Arm/SoundProgram.antt =====
-- src/backend/arm64/ARM64Encoder.cpp: operations, functions and programs keep the code valid.
use lsm_toolchain.Prelude.{
  true, false, ℕ, ◌+◌, refl, arith, List, [], ◌∷◌, String, ltb, Bool-cases, inl, inr,
}
use lsm_toolchain.Ssa.{StaticType, Op, Value, Instruction, BasicBlock, Function}
use lsm_toolchain.RegAlloc.Interval.{is_float}
use lsm_toolchain.Encode.Growing.{Keeps-then, Keeps-when, Keeps-nothing}
use lsm_toolchain.X86.Program.{arranged}
use lsm_toolchain.Encode.Bytes.{word_at}
use lsm_toolchain.Arm.Emit.{Encoder, emit_branch}
use lsm_toolchain.Arm.Instructions.{
  operand, store_result, load_operands, encode_arith, encode_div, encode_mod, encode_set_register,
  encode_get_register, encode_volatile_load, encode_volatile_store, encode_cond_branch,
  load_argument, load_arguments, store_call_result, encode_call, load_return, leave, encode_return,
  encode_op, encode_instruction,
}
use lsm_toolchain.Arm.Program.{
  mark_here, store_param, store_params, fresh_frame, enter, encode_instructions, encode_blocks,
  encode_function, encode_functions, cleared, encoded,
}
use lsm_toolchain.Arm.Sound.{
  IsValid, IsValid-mark, Fine, Fine-at_slot, Fine-emit_inst, Fine-emit_branch,
  Fine-emit_stack_store, Fine-emit_fpr_stack_store, arm_rules,
}

Fine-store_result : (i : Instruction) → Fine (store_result i)
unfolding store_result
Fine-store_result i = search arm_rules

Fine-load_operands : (i : Instruction) → Fine (load_operands i)
unfolding load_operands
Fine-load_operands i = search arm_rules

ruleset op_rules = (arm_rules, Fine-store_result, Fine-load_operands)

Fine-encode_arith : (i : Instruction) → Fine (encode_arith i)
unfolding encode_arith
Fine-encode_arith i = search op_rules

Fine-encode_div : (i : Instruction) → Fine (encode_div i)
unfolding encode_div
Fine-encode_div i = search op_rules

Fine-encode_mod : (i : Instruction) → Fine (encode_mod i)
unfolding encode_mod
Fine-encode_mod i = search op_rules

Fine-encode_set_register : (i : Instruction) → Fine (encode_set_register i)
unfolding encode_set_register
Fine-encode_set_register i = search op_rules

Fine-encode_get_register : (i : Instruction) → Fine (encode_get_register i)
unfolding encode_get_register
Fine-encode_get_register i = search op_rules

Fine-encode_volatile_load : (i : Instruction) → Fine (encode_volatile_load i)
unfolding encode_volatile_load
Fine-encode_volatile_load i = search op_rules

Fine-encode_volatile_store : (i : Instruction) → Fine (encode_volatile_store i)
unfolding encode_volatile_store
Fine-encode_volatile_store i = search op_rules

Fine-branch : (l : String) → Fine (emit_branch l false 0x14000000)
unfolding word_at
Fine-branch l = Fine-emit_branch l false 0x14000000 refl

Fine-branch_link : (l : String) → Fine (emit_branch l false 0x94000000)
unfolding word_at
Fine-branch_link l = Fine-emit_branch l false 0x94000000 refl

Fine-branch_zero : (l : String) → Fine (emit_branch l true 0xb4000000)
unfolding word_at
Fine-branch_zero l = Fine-emit_branch l true 0xb4000000 refl

Fine-encode_cond_branch : (i : Instruction) → Fine (encode_cond_branch i)
unfolding encode_cond_branch
Fine-encode_cond_branch i = search (op_rules, Fine-branch, Fine-branch_zero)

Fine-load_argument : (k : ℕ) (v : Value) → Fine (load_argument k v)
unfolding load_argument
Fine-load_argument k v = elim (Bool-cases (is_float v.type)) [
  | inl float ↦ rw float (search op_rules)
  | inr int ↦ rw int (search op_rules)
]

Fine-load_arguments : (k : ℕ) (vs : List Value) → Fine (load_arguments k vs)
unfolding load_arguments
Fine-load_arguments k [] = Keeps-nothing
Fine-load_arguments k (v ∷ vs) = record {
  keep = λ e h.
      (Fine-load_arguments (k + 1) vs).keep _
        ((Keeps-when (ltb k 8) (Fine-load_argument k v)).keep e h);
}

Fine-store_call_result : (i : Instruction) → Fine (store_call_result i)
unfolding store_call_result
Fine-store_call_result i = search op_rules

Fine-encode_call : (i : Instruction) → Fine (encode_call i)
unfolding encode_call
Fine-encode_call i =
    search (op_rules, Fine-load_arguments, Fine-branch_link, Fine-store_call_result)

Fine-load_return : (vs : List Value) → Fine (load_return vs)
unfolding load_return
Fine-load_return [] = Keeps-nothing
Fine-load_return (v ∷ vs) = Fine-load_argument 0 v

Fine-leave : Fine leave
unfolding leave
Fine-leave = record {
  keep = λ e h. (Keeps-then (Fine-emit_inst _) (Fine-emit_inst 0xd65f03c0)).keep e h;
}

Fine-encode_return : (i : Instruction) → Fine (encode_return i)
unfolding encode_return
Fine-encode_return i = Keeps-then (Fine-load_return i.operands) Fine-leave

Fine-encode_op : (o : Op) (i : Instruction) → Fine (encode_op o i)
unfolding encode_op
Fine-encode_op Op.branch i = Fine-branch (operand 0 i).str
Fine-encode_op Op.call i = Fine-encode_call i
Fine-encode_op Op.return i = Fine-encode_return i
Fine-encode_op _ i = search (
  Fine-encode_arith, Fine-encode_div, Fine-encode_mod, Fine-encode_set_register,
  Fine-encode_get_register, Fine-encode_volatile_load, Fine-encode_volatile_store,
  Fine-encode_cond_branch, Fine-emit_inst, Keeps-nothing,
)

Fine-mark_here : (l : String) → Fine (mark_here l)
unfolding mark_here
Fine-mark_here l = record { keep = λ e h. IsValid-mark l e h }

Fine-store_param : (k : ℕ) (p : String × StaticType) → Fine (store_param k p)
unfolding store_param
Fine-store_param k (n, t) = Fine-at_slot n _ (λ o. elim (Bool-cases (is_float t)) [
  | inl float ↦ rw float (Fine-emit_fpr_stack_store k o)
  | inr int ↦ rw int (Fine-emit_stack_store k o)
])

Fine-store_params : (k : ℕ) (ps : List (String × StaticType)) → Fine (store_params k ps)
unfolding store_params
Fine-store_params k [] = Keeps-nothing
Fine-store_params k (p ∷ ps) = record {
  keep = λ e h.
      (Fine-store_params (k + 1) ps).keep _
        ((Keeps-when (ltb k 8) (Fine-store_param k p)).keep e h);
}

Fine-encode_instructions : (is : List Instruction) → Fine (encode_instructions is)
unfolding encode_instructions encode_instruction
Fine-encode_instructions [] = Keeps-nothing
Fine-encode_instructions (i ∷ is) = record {
  keep = λ e h. (Fine-encode_instructions is).keep _ ((Fine-encode_op i.op i).keep e h);
}

Fine-encode_blocks : (bs : List BasicBlock) → Fine (encode_blocks bs)
unfolding encode_blocks
Fine-encode_blocks [] = Keeps-nothing
Fine-encode_blocks (b ∷ bs) = record {
  keep = λ e h.
      (Fine-encode_blocks bs).keep _
        ((Keeps-then (Fine-mark_here b.label) (Fine-encode_instructions b.instructions)).keep e h);
}

Fine-fresh_frame : Fine fresh_frame
unfolding fresh_frame
Fine-fresh_frame = record { keep = λ e h. record { sound = h.sound; aligned = h.aligned } }

Fine-enter : Fine enter
unfolding enter
Fine-enter = record {
  keep = λ e h. (Keeps-then (Fine-emit_inst _) (Fine-emit_inst 0x910003fd)).keep e h;
}

Fine-encode_function : (f : Function) → Fine (encode_function f)
unfolding encode_function
Fine-encode_function f =
    Keeps-then
      (Keeps-then (Keeps-then (Keeps-then Fine-fresh_frame (Fine-mark_here f.name)) Fine-enter)
        (Fine-store_params 0 f.params))
      (Fine-encode_blocks f.blocks)

Fine-encode_functions : (fs : List Function) → Fine (encode_functions fs)
unfolding encode_functions
Fine-encode_functions [] = Keeps-nothing
Fine-encode_functions (f ∷ fs) = record {
  keep = λ e h. (Fine-encode_functions fs).keep _ ((Fine-encode_function f).keep e h);
}

pub IsValid-encoded : (fs : List Function) (e : Encoder) → IsValid (encoded fs e)
unfolding encoded cleared
IsValid-encoded fs e = (Fine-encode_functions (arranged fs)).keep (cleared e) (record {
  sound = record { spaced = omega arith; blank = tt };
  aligned = record { whole = refl; labels = tt; branches = tt };
})
