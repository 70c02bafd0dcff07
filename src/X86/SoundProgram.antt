-- ===== src/X86/SoundProgram.antt =====
-- src/backend/x86_64/X86_64Encoder.cpp: calls, functions and programs record their jumps soundly.
use lsm_toolchain.Prelude.{
  ℕ, ◌+◌, arith, not, List, [], ◌∷◌, String, inl, inr, ltb, ◌==◌, Bool-cases,
}
use lsm_toolchain.Ssa.{StaticType, Op, Value, Instruction, BasicBlock, Function}
use lsm_toolchain.Encode.{◌>>◌}
use lsm_toolchain.Encode.Growing.{IsSound, IsSound-mark, Keeps-then, Keeps-when}
use lsm_toolchain.X86.Emit.{Encoder, emit, emit_int64, emit_jump}
use lsm_toolchain.X86.Instructions.{rex_w, encode_get_register, encode_branch}
use lsm_toolchain.X86.Calls.{
  function_address, print_names, store_call_result, load_argument, load_arguments, emit_call,
  encode_call, encode_op, encode_instruction,
}
use lsm_toolchain.X86.Program.{
  mark_here, store_param, store_params, prologue, fresh_frame, encode_instructions, encode_blocks,
  encode_function, encode_functions, cleared, encoded, arranged,
}
use lsm_toolchain.X86.Sound.{Fine, Fine-emit, step_rules}
use lsm_toolchain.X86.SoundOps.{op_rules}

Fine-nothing : Fine (λ e. e)
Fine-nothing = record { keep = λ e h. h }

Fine-encode_get_register : (i : Instruction) → Fine (encode_get_register i)
unfolding encode_get_register
Fine-encode_get_register i = search step_rules

Fine-encode_branch : (i : Instruction) → Fine (encode_branch i)
unfolding encode_branch
Fine-encode_branch i = search step_rules

Fine-store_call_result : (i : Instruction) → Fine (store_call_result i)
unfolding store_call_result
Fine-store_call_result i = search step_rules

Fine-mark_here : (l : String) → Fine (mark_here l)
unfolding mark_here
Fine-mark_here l = record { keep = λ e h. IsSound-mark l e.asm h }

Fine-store_param : (k : ℕ) (p : String × StaticType) → Fine (store_param k p)
unfolding store_param
Fine-store_param k (n, t) = search step_rules

Fine-store_params : (k : ℕ) (ps : List (String × StaticType)) → Fine (store_params k ps)
unfolding store_params
Fine-store_params k [] = Fine-nothing
Fine-store_params k (p ∷ ps) = record {
  keep = λ e h.
      (Fine-store_params (k + 1) ps).keep _
        ((Keeps-when (ltb k 6) (Fine-store_param k p)).keep e h);
}

Fine-prologue : (ps : List (String × StaticType)) → Fine (prologue ps)
unfolding prologue
Fine-prologue ps = search (step_rules, Fine-store_params) depth 9

module _ (address : List String → ℕ) (native : String → ℕ) where
  Fine-load_argument : (k : ℕ) (v : Value) → Fine (load_argument address native k v)
  unfolding load_argument
  Fine-load_argument k v = search step_rules

  Fine-load_arguments : (k : ℕ) (vs : List Value) → Fine (load_arguments address native k vs)
  unfolding load_arguments
  Fine-load_arguments k [] = Fine-nothing
  Fine-load_arguments k (v ∷ vs) = record {
    keep = λ e h.
        (Fine-load_arguments (k + 1) vs).keep _
          ((Keeps-when (ltb k 6) (Fine-load_argument k v)).keep e h);
  }

  Fine-emit_call : (fn : String) → Fine (emit_call address native fn)
  unfolding emit_call
  Fine-emit_call fn = record {
    keep = λ e h.
        let a = function_address native print_names fn e.external_symbols in
        let direct : Fine (emit (rex_w ∷ 0xb8 ∷ []) >> emit_int64 a >> emit (0xff ∷ 0xd0 ∷ [])) =
          search step_rules in
        let patched : Fine (emit (0xe8 ∷ []) >> emit_jump fn) = search step_rules in
        elim (Bool-cases (not (a == 0))) [
          | inl some_ ↦ rw some_ (direct.keep e h)
          | inr none_ ↦ rw none_ (patched.keep e h)
        ];
  }

  Fine-encode_call : (i : Instruction) → Fine (encode_call address native i)
  unfolding encode_call
  Fine-encode_call i =
      search (step_rules, Fine-load_arguments, Fine-emit_call, Fine-store_call_result) depth 9

  Fine-encode_op : (o : Op) (i : Instruction) → Fine (encode_op address native o i)
  unfolding encode_op
  Fine-encode_op Op.call i = Fine-encode_call i
  Fine-encode_op Op.get_register i = Fine-encode_get_register i
  Fine-encode_op Op.branch i = Fine-encode_branch i
  Fine-encode_op _ i = search (op_rules, Fine-nothing, Fine-emit)

  Fine-encode_instructions : (is : List Instruction) → Fine (encode_instructions address native is)
  unfolding encode_instructions encode_instruction
  Fine-encode_instructions [] = Fine-nothing
  Fine-encode_instructions (i ∷ is) = record {
    keep = λ e h. (Fine-encode_instructions is).keep _ ((Fine-encode_op i.op i).keep e h);
  }

  Fine-encode_blocks : (bs : List BasicBlock) → Fine (encode_blocks address native bs)
  unfolding encode_blocks
  Fine-encode_blocks [] = Fine-nothing
  Fine-encode_blocks (b ∷ bs) = record {
    keep = λ e h.
        (Fine-encode_blocks bs).keep _ (
          (Keeps-then (Fine-mark_here b.label) (Fine-encode_instructions b.instructions)).keep e h);
  }

  Fine-encode_function : (f : Function) → Fine (encode_function address native f)
  unfolding encode_function fresh_frame
  Fine-encode_function f =
      Keeps-then
        (Keeps-then (Keeps-then (record { keep = λ e h. h }) (Fine-mark_here f.name))
          (Keeps-when _ (Fine-prologue f.params)))
        (Fine-encode_blocks f.blocks)

  Fine-encode_functions : (fs : List Function) → Fine (encode_functions address native fs)
  unfolding encode_functions
  Fine-encode_functions [] = Fine-nothing
  Fine-encode_functions (f ∷ fs) = record {
    keep = λ e h. (Fine-encode_functions fs).keep _ ((Fine-encode_function f).keep e h);
  }

  pub IsSound-encoded :
      (fs : List Function) (e : Encoder) → IsSound (encoded address native fs e).asm
  unfolding encoded cleared
  IsSound-encoded fs e =
      (Fine-encode_functions (arranged fs)).keep (cleared e)
        (record { spaced = omega arith; blank = tt })
