-- ===== src/Ssa/Machine.antt =====
-- What a function does when it runs: a reference semantics for the passes over
-- src/middleend/ssa/SSAInstruction.hpp. The program has no interpreter for its IR, so what an
-- operation computes is a parameter.
use lsm_toolchain.Prelude.{
  ℕ, zero, suc, List, [], ◌∷◌, String, Option, none, some, get_elem?, if◌then◌else◌, str_eq,
}
use lsm_toolchain.Ssa.{Op, Value, Instruction, BasicBlock}

abbrev pub Env : Type 0
Env = String → ℕ

-- `W` is all of the machine but the variables: memory, devices, registers, the block to run next.
pub record Machine (W : Type 0) : Type 0 where
  pub constant : Value → ℕ
  pub act : Op → List ℕ → W → ℕ × W
  pub next : W → Option ℕ

abbrev pub assign : Env → String → ℕ → Env
assign e n v = λ x. if str_eq n x then v else e x

module _ {W : Type 0} (m : Machine W) where
  abbrev pub eval : Env → Value → ℕ
  eval e v = if v.is_constant then m.constant v else e v.name

  abbrev pub eval_all : Env → List Value → List ℕ
  eval_all e [] = []
  eval_all e (v ∷ vs) = eval e v ∷ eval_all e vs

  -- An instruction with no named result only acts.
  abbrev pub step : Instruction → Env × W → Env × W
  step i (e, w) =
      let (v, w') = m.act i.op (eval_all e i.operands) w in
      (if str_eq i.result.name "" then e else assign e i.result.name v, w')

  abbrev pub run : List Instruction → Env × W → Env × W
  run [] s = s
  run (i ∷ is) s = run is (step i s)

  -- Blocks run as the machine chooses them, for at most `fuel` blocks; `none` is a run that goes on.
  unfoldable pub exec : ℕ → List BasicBlock → Env × W → Option W
  exec zero bs s = none
  exec (suc fuel) bs s = elim (m.next s.1) [
    | none ↦ some s.1
    | some k ↦ elim (get_elem? bs k) [
      | none ↦ some s.1
      | some b ↦ exec fuel bs (run b.instructions s)
    ]
  ]
