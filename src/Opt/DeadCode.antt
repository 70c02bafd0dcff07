-- ===== src/Opt/DeadCode.antt =====
-- src/middleend/opt/DeadCodeElim.hpp
pub mod Done
pub mod Sound
pub mod Kept
pub mod Exec
use lsm_toolchain.Prelude.{
  ℕ, zero, suc, ◌+◌, List, [], ◌∷◌, ◌++◌, String, Bool, true, false, not, ◌&&◌, ◌||◌, str_eq, mem,
  if◌then◌else◌, length, map,
}
use lsm_toolchain.Ssa.{Op, Value, Instruction, BasicBlock, Function, is_named, all_instructions}

unfoldable pub has_side_effects : Op → Bool
has_side_effects Op.call = true
has_side_effects Op.return = true
has_side_effects Op.array_store = true
has_side_effects Op.volatile_store = true
has_side_effects Op.volatile_load = true
has_side_effects Op.io_port_write = true
has_side_effects Op.io_port_read = true
has_side_effects Op.set_register = true
has_side_effects Op.cpu_halt = true
has_side_effects Op.disable_interrupts = true
has_side_effects Op.enable_interrupts = true
has_side_effects Op.branch = true
has_side_effects Op.cond_branch = true
has_side_effects _ = false

-- the names that the operands read
abbrev pub operand_names : List Value → List String
operand_names [] = []
operand_names (v ∷ vs) =
    if not v.is_constant && not (str_eq v.name "")
    then v.name ∷ operand_names vs
    else operand_names vs

abbrev pub names_of : List Instruction → List String
names_of [] = []
names_of (i ∷ is) = operand_names i.operands ++ names_of is

unfoldable pub used_vars : List BasicBlock → List String
used_vars bs = names_of (all_instructions bs)

-- the test under which the second loop erases an instruction
unfoldable pub is_dead : List String → Instruction → Bool
is_dead used i = is_named i && not (mem i.result.name used) && not (has_side_effects i.op)

unfoldable pub sweep_instructions : List String → List Instruction → List Instruction
sweep_instructions used [] = []
sweep_instructions used (i ∷ is) =
    let rest = sweep_instructions used is in if is_dead used i then rest else i ∷ rest

abbrev pub sweep_blocks : List String → List BasicBlock → List BasicBlock
sweep_blocks used [] = []
sweep_blocks used (b ∷ bs) =
    record b { instructions = sweep_instructions used b.instructions } ∷ sweep_blocks used bs

-- `changed`: some instruction is erased.
unfoldable pub any_dead : List String → List Instruction → Bool
any_dead used [] = false
any_dead used (i ∷ is) = is_dead used i || any_dead used is

-- The `while (changed)` loop, for at most `fuel` rounds.
unfoldable pub eliminate : ℕ → List BasicBlock → List BasicBlock
eliminate zero bs = bs
eliminate (suc fuel) bs =
    let used = used_vars bs in
    let rest = eliminate fuel (sweep_blocks used bs) in
    if any_dead used (all_instructions bs) then rest else bs

-- A round that erases nothing ends the loop, so one round more than there are instructions is
-- enough.
unfoldable pub optimize : Function → Function
optimize f = record f { blocks = eliminate (suc (length (all_instructions f.blocks))) f.blocks }
