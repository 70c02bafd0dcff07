-- ===== src/Tests/DeadCode.antt =====
-- Dead code elimination at a small function (src/middleend/opt/DeadCodeElim.hpp).
use lsm_toolchain.Prelude.{
  ℕ, ◌+◌, Bool, ◌≡◌, refl, List, [], ◌∷◌, String, true, false, none, some, In, inl, All,
  if◌then◌else◌, ◌==◌,
}
use lsm_toolchain.Ssa.{
  Op, StaticType, Value, Instruction, BasicBlock, Function, make_var, make_const_num,
  all_instructions,
}
use lsm_toolchain.Ssa.Machine.{Machine, Env, exec}
use lsm_toolchain.Opt.DeadCode.{
  has_side_effects, used_vars, optimize, is_dead, sweep_instructions, any_dead, eliminate,
}
use lsm_toolchain.Opt.DeadCode.Done.{optimize_used, optimize_twice}
use lsm_toolchain.Opt.DeadCode.Kept.{effects, effects-optimize}
use lsm_toolchain.Opt.DeadCode.Sound.{IsQuiet, IsGuarded, leaves_world}
use lsm_toolchain.Opt.DeadCode.Exec.{exec-optimize}

abbrev var : String → Value
var n = make_var n StaticType.int64

abbrev num : ℕ → Value
num n = make_const_num n StaticType.int64

abbrev instr : Op → String → List Value → Instruction
instr o r vs = record {
  op = o;
  result = record {
    name = r;
    type = StaticType.int64;
    is_constant = false;
    num = 0;
    float = 0;
    str = "";
  };
  operands = vs;
}

-- x is printed; y and z are never read by anything that is left
abbrev entry : BasicBlock
entry = record {
  label = "entry";
  instructions =
      instr Op.copy "x" (num 1 ∷ [])
      ∷ instr Op.add "y" (var "x" ∷ num 2 ∷ [])
      ∷ instr Op.copy "z" (var "y" ∷ [])
      ∷ instr Op.call "r" (var "x" ∷ [])
      ∷ [];
  predecessors = [];
  successors = [];
}

abbrev sample : Function
sample = record {
  name = "main";
  params = [];
  return_type = StaticType.void;
  blocks = entry ∷ [];
  is_naked = false;
  is_inline = false;
}

optimize-sample :
    all_instructions (optimize sample).blocks
    ≡ instr Op.copy "x" (num 1 ∷ []) ∷ instr Op.call "r" (var "x" ∷ []) ∷ []
unfolding optimize eliminate used_vars any_dead is_dead sweep_instructions has_side_effects
optimize-sample = refl

abbrev is_call : Op → Bool
is_call Op.call = true
is_call _ = false

abbrev value : Op → List ℕ → ℕ
value Op.add (a ∷ b ∷ _) = a + b
value op (a ∷ _) = a
value op [] = 0

-- A call adds its argument and one to what was printed, and the machine halts after the first.
abbrev printer : Machine ℕ
printer = record {
  constant = λ v. v.num;
  act = λ op vs w. (value op vs, if is_call op then w + value op vs + 1 else w);
  next = λ w. if w == 0 then some 0 else none;
}

printer_quiet :
    (op : Op) (vs : List ℕ) (w : ℕ) → leaves_world op ≡ true → (printer.act op vs w).1 ≡ w
printer_quiet Op.call vs w h = cc
printer_quiet _ vs w h = refl

printer-IsQuiet : IsQuiet printer
printer-IsQuiet = record { quiet = printer_quiet }

abbrev start : Env
start = λ n. 7

sample-IsGuarded : All IsGuarded (all_instructions sample.blocks)
sample-IsGuarded = (refl, (refl, (refl, (refl, tt))))

exec-sample : exec printer 2 sample.blocks (start, 0) ≡ some 2
unfolding exec
exec-sample = refl

exec-optimize_example :
    exec printer 2 (optimize sample).blocks (start, 0) ≡ exec printer 2 sample.blocks (start, 0)
exec-optimize_example = exec-optimize printer printer-IsQuiet sample sample-IsGuarded 2 start 0

left : In (instr Op.copy "x" (num 1 ∷ [])) (all_instructions (optimize sample).blocks)
left = rw optimize-sample (inl refl)

copy-effects : has_side_effects Op.copy ≡ false
unfolding has_side_effects
copy-effects = refl

optimize_used_example : In "x" (used_vars (optimize sample).blocks)
optimize_used_example = optimize_used sample (instr Op.copy "x" (num 1 ∷ [])) left refl copy-effects

optimize_twice_example : optimize (optimize sample) ≡ optimize sample
optimize_twice_example = optimize_twice sample

effects-optimize_example :
    effects (all_instructions (optimize sample).blocks) ≡ effects (all_instructions sample.blocks)
effects-optimize_example = effects-optimize sample
