-- ===== src/Opt/DeadCode/Kept.antt =====
-- src/middleend/opt/DeadCodeElim.hpp: the instructions that have to be kept.
use lsm_toolchain.Prelude.{
  ℕ, Bool, ◌&&◌, not, mem, inl, inr, Bool-cases, zero, suc, ◌≡◌, refl, ap, List, [], ◌∷◌, String,
  true, false, length, arith, if◌then◌else◌,
}
use lsm_toolchain.Ssa.{is_named, Instruction, BasicBlock, Function, all_instructions}
use lsm_toolchain.Opt.DeadCode.{
  used_vars, is_dead, sweep_instructions, sweep_blocks, eliminate, optimize, has_side_effects,
}
use lsm_toolchain.Opt.DeadCode.Done.{all-sweep_blocks}
use lsm_toolchain.Opt.DeadCode.Sound.{must_stay, must_stay-has_side_effects}

-- The instructions that have to be kept.
abbrev pub effects : List Instruction → List Instruction
effects [] = []
effects (i ∷ is) = let rest = effects is in if must_stay i.op then i ∷ rest else rest

and_not : (a b c : Bool) → c ≡ true → (a && b && not c) ≡ false
and_not a b c h = ground (arith, h)

not-is_dead :
    (used : List String) (i : Instruction) → must_stay i.op ≡ true → is_dead used i ≡ false
unfolding is_dead
not-is_dead used i stays =
    and_not (is_named i) (not (mem i.result.name used)) (has_side_effects i.op)
      (must_stay-has_side_effects i.op stays)

effects-sweep :
    (used : List String) (is : List Instruction) → effects (sweep_instructions used is) ≡ effects is
unfolding sweep_instructions
effects-sweep used [] = refl
effects-sweep used (i ∷ is) =
    let ih = effects-sweep used is in
    elim (Bool-cases (must_stay i.op)) [
      | inl stays ↦ rw (not-is_dead used i stays, stays) (ap (λ k. i ∷ k) ih)
      | inr other ↦ elim (Bool-cases (is_dead used i)) [
        | inl dead ↦ rw (dead, other) ih
        | inr live ↦ rw (live, other) ih
      ]
    ]

effects-eliminate :
    (fuel : ℕ) (bs : List BasicBlock)
    → effects (all_instructions (eliminate fuel bs)) ≡ effects (all_instructions bs)
unfolding eliminate
effects-eliminate zero bs = refl
effects-eliminate (suc fuel) bs = ground (
  arith,
  effects-eliminate fuel (sweep_blocks (used_vars bs) bs),
  ap effects (all-sweep_blocks (used_vars bs) bs),
  effects-sweep (used_vars bs) (all_instructions bs),
)

-- The instructions that have to be kept are kept, all of them and in their order: calls and
-- returns, branches, array and volatile stores, volatile loads, accesses to ports of a byte,
-- writes of registers, and the halt and interrupt instructions. Task spawns, atomic updates and
-- accesses to ports of 16 bits are not counted among them.
pub effects-optimize :
    (f : Function)
    → effects (all_instructions (optimize f).blocks) ≡ effects (all_instructions f.blocks)
unfolding optimize
effects-optimize f = effects-eliminate (suc (length (all_instructions f.blocks))) f.blocks
