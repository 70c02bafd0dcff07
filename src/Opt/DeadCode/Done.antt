-- ===== src/Opt/DeadCode/Done.antt =====
-- src/middleend/opt/DeadCodeElim.hpp: the loop ends, and what it leaves.
use lsm_toolchain.Prelude.{
  ℕ, zero, suc, ◌≤◌, ◌<◌, ◌≡◌, refl, ap, List, [], ◌∷◌, ◌++◌, String, true, false, In, inl, inr,
  length, mem_iff, arith, Bool-cases,
}
use lsm_toolchain.Ssa.{Instruction, BasicBlock, Function, is_named, all_instructions}
use lsm_toolchain.Opt.DeadCode.{
  has_side_effects, used_vars, is_dead, sweep_instructions, sweep_blocks, any_dead, eliminate,
  optimize,
}

sweep-append :
    (used : List String) (xs ys : List Instruction)
    → sweep_instructions used (xs ++ ys) ≡ sweep_instructions used xs ++ sweep_instructions used ys
unfolding sweep_instructions
sweep-append used [] ys = refl
sweep-append used (x ∷ xs) ys = ground (arith, sweep-append used xs ys)

-- Sweeping block by block sweeps the instructions of all blocks.
pub all-sweep_blocks :
    (used : List String) (bs : List BasicBlock)
    → all_instructions (sweep_blocks used bs) ≡ sweep_instructions used (all_instructions bs)
all-sweep_blocks used [] = unfold sweep_instructions in refl
all-sweep_blocks used (b ∷ bs) =
    rw (sweep-append used b.instructions (all_instructions bs), all-sweep_blocks used bs)

length-sweep-le :
    (used : List String) (is : List Instruction) → length (sweep_instructions used is) ≤ length is
unfolding sweep_instructions
length-sweep-le used [] = omega arith
length-sweep-le used (i ∷ is) = ground (arith, length-sweep-le used is)

length-sweep-lt :
    (used : List String) (is : List Instruction)
    → any_dead used is ≡ true
    → length (sweep_instructions used is) < length is
unfolding any_dead sweep_instructions
length-sweep-lt used [] h = cc
length-sweep-lt used (i ∷ is) h = ground (arith, length-sweep-le used is, length-sweep-lt used is)

-- With more rounds than instructions the loop ends by its test.
eliminate_ends :
    (fuel : ℕ) (bs : List BasicBlock)
    → length (all_instructions bs) < fuel
    → let r = eliminate fuel bs in any_dead (used_vars r) (all_instructions r) ≡ false
unfolding eliminate
eliminate_ends zero bs h = absurd (omega arith)
eliminate_ends (suc fuel) bs h = elim (Bool-cases (any_dead (used_vars bs) (all_instructions bs))) [
  | inl more ↦ rw more (
      eliminate_ends fuel (sweep_blocks (used_vars bs) bs) (
        omega (
          arith,
          ap length (all-sweep_blocks (used_vars bs) bs),
          length-sweep-lt (used_vars bs) (all_instructions bs) more,
        )))
  | inr done ↦ rw done done
]

not-any_dead :
    (used : List String) (is : List Instruction) (i : Instruction)
    → any_dead used is ≡ false
    → In i is
    → is_dead used i ≡ false
unfolding any_dead
not-any_dead used [] i h m = absurd m
not-any_dead used (j ∷ is) i h (inl e) = rw e (ground arith)
not-any_dead used (j ∷ is) i h (inr m) = not-any_dead used is i (ground arith) m

-- What is left is used: every instruction that the pass leaves, has a named result and no side
-- effect has its result read by an instruction that is left.
pub optimize_used :
    (f : Function) (i : Instruction)
    → In i (all_instructions (optimize f).blocks)
    → is_named i ≡ true
    → has_side_effects i.op ≡ false
    → In i.result.name (used_vars (optimize f).blocks)
unfolding optimize
optimize_used f i m named pure =
    let bs = eliminate (suc (length (all_instructions f.blocks))) f.blocks in
    let live =
      not-any_dead (used_vars bs) (all_instructions bs) i
        (eliminate_ends (suc (length (all_instructions f.blocks))) f.blocks (omega arith)) m in
    (mem_iff i.result.name (used_vars bs)).0 (unfold is_dead in ground arith)

eliminate_settled :
    (fuel : ℕ) (bs : List BasicBlock)
    → any_dead (used_vars bs) (all_instructions bs) ≡ false
    → eliminate fuel bs ≡ bs
unfolding eliminate
eliminate_settled zero bs h = refl
eliminate_settled (suc fuel) bs h = rw h

-- A second run of the pass changes nothing.
pub optimize_twice : (f : Function) → optimize (optimize f) ≡ optimize f
unfolding optimize
optimize_twice f =
    let n = suc (length (all_instructions f.blocks)) in
    let bs = eliminate n f.blocks in
    let done = eliminate_ends n f.blocks (omega arith) in
    ap (λ b. record f { blocks = b })
      (eliminate_settled (suc (length (all_instructions bs))) bs done)
