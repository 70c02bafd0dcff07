-- ===== src/Opt/DeadCode/Exec.antt =====
-- src/middleend/opt/DeadCodeElim.hpp: the pass keeps what a function does.
use mathlib.Core.List.{append_assoc}
use lsm_toolchain.Prelude.{
  ℕ, zero, suc, ◌≡◌, refl, sym, ap, subst, ◌∙◌, List, [], ◌∷◌, ◌++◌, String, inl, inr, In,
  Bool-cases, Option-cases, none, some, All, get_elem?, length, In-append_left, In-append_right,
}
use lsm_toolchain.Ssa.{Instruction, BasicBlock, Function, all_instructions}
use lsm_toolchain.Ssa.Machine.{Env, Machine, run, exec}
use lsm_toolchain.Opt.DeadCode.{
  used_vars, is_dead, sweep_instructions, sweep_blocks, any_dead, eliminate, optimize, names_of,
  operand_names,
}
use lsm_toolchain.Opt.DeadCode.Done.{all-sweep_blocks}
use lsm_toolchain.Opt.DeadCode.Sound.{IsQuiet, IsGuarded, Agree, Sub, run-sweep}

names_of-append : (xs ys : List Instruction) → names_of (xs ++ ys) ≡ names_of xs ++ names_of ys
names_of-append [] ys = refl
names_of-append (x ∷ xs) ys =
    rw (names_of-append xs ys)
      (sym (append_assoc (operand_names x.operands) (names_of xs) (names_of ys)))

-- What a block reads is among what all blocks read.
Sub-block :
    (bs : List BasicBlock) (k : ℕ) (b : BasicBlock)
    → get_elem? bs k ≡ some b
    → Sub (names_of b.instructions) (names_of (all_instructions bs))
Sub-block [] k b h n m = cc
Sub-block (c ∷ bs) zero b h n m = rw (names_of-append c.instructions (all_instructions bs)) (
    In-append_left n (names_of c.instructions) (names_of (all_instructions bs))
      (let e : c ≡ b = cc in subst (λ d. In n (names_of d.instructions)) (sym e) m))
Sub-block (c ∷ bs) (suc k) b h n m = rw (names_of-append c.instructions (all_instructions bs)) (
    In-append_right n (names_of c.instructions) (names_of (all_instructions bs))
      (Sub-block bs k b h n m))

All-front : (xs ys : List Instruction) → All IsGuarded (xs ++ ys) → All IsGuarded xs
All-front [] ys h = tt
All-front (x ∷ xs) ys h = (h.0, All-front xs ys h.1)

All-back : (xs ys : List Instruction) → All IsGuarded (xs ++ ys) → All IsGuarded ys
All-back [] ys h = h
All-back (x ∷ xs) ys h = All-back xs ys h.1

IsGuarded-block :
    (bs : List BasicBlock) (k : ℕ) (b : BasicBlock)
    → get_elem? bs k ≡ some b
    → All IsGuarded (all_instructions bs)
    → All IsGuarded b.instructions
IsGuarded-block [] k b h g = cc
IsGuarded-block (c ∷ bs) zero b h g =
    let e : c ≡ b = cc in
    subst (λ d. All IsGuarded d.instructions) e (All-front c.instructions (all_instructions bs) g)
IsGuarded-block (c ∷ bs) (suc k) b h g =
    IsGuarded-block bs k b h (All-back c.instructions (all_instructions bs) g)

IsGuarded-sweep :
    (used : List String) (is : List Instruction)
    → All IsGuarded is
    → All IsGuarded (sweep_instructions used is)
unfolding sweep_instructions
IsGuarded-sweep used [] g = tt
IsGuarded-sweep used (i ∷ is) g = elim (Bool-cases (is_dead used i)) [
  | inl dead ↦ rw dead (IsGuarded-sweep used is g.1)
  | inr live ↦ rw live (g.0, IsGuarded-sweep used is g.1)
]

-- a block after the sweep
abbrev swept : List String → BasicBlock → BasicBlock
swept used b = record b { instructions = sweep_instructions used b.instructions }

get-sweep_some :
    (used : List String) (bs : List BasicBlock) (k : ℕ) (b : BasicBlock)
    → get_elem? bs k ≡ some b
    → get_elem? (sweep_blocks used bs) k ≡ some (swept used b)
get-sweep_some used [] k b h = cc
get-sweep_some used (c ∷ bs) zero b h =
    let e : c ≡ b = cc in ap (λ (d : BasicBlock). some (swept used d)) e
get-sweep_some used (c ∷ bs) (suc k) b h = get-sweep_some used bs k b h

get-sweep_none :
    (used : List String) (bs : List BasicBlock) (k : ℕ)
    → get_elem? bs k ≡ none
    → get_elem? (sweep_blocks used bs) k ≡ none
get-sweep_none used [] k h = refl
get-sweep_none used (c ∷ bs) zero h = cc
get-sweep_none used (c ∷ bs) (suc k) h = get-sweep_none used bs k h

module _ {W : Type 0} (m : Machine W) (q : IsQuiet m) where
  exec-sweep :
      (bs : List BasicBlock)
      → All IsGuarded (all_instructions bs)
      → (fuel : ℕ) (e f : Env) (w : W) → Agree (used_vars bs) e f
      → exec m fuel (sweep_blocks (used_vars bs) bs) (e, w) ≡ exec m fuel bs (f, w)
  unfolding exec
  exec-sweep bs g zero e f w a = refl
  exec-sweep bs g (suc fuel) e f w a = elim (Option-cases (m.next w)) [
    | inl halted ↦ rw (exec, halted)
    | inr (k, chosen) ↦ elim (Option-cases (get_elem? bs k)) [
      | inl missing ↦ rw (exec, chosen, missing, get-sweep_none (used_vars bs) bs k missing)
      | inr (b, found) ↦
          let (a', same) =
            run-sweep m q (used_vars bs) b.instructions e f w
              (unfold used_vars in Sub-block bs k b found) (IsGuarded-block bs k b found g) a in
          rw (exec, chosen, found, get-sweep_some (used_vars bs) bs k b found)
            (subst
              (λ x.
                exec m fuel (sweep_blocks (used_vars bs) bs)
                  ((run m (sweep_instructions (used_vars bs) b.instructions) (e, w)).0, x)
                ≡ exec m fuel bs (run m b.instructions (f, w)))
              (sym same)
              (exec-sweep bs g fuel
                (run m (sweep_instructions (used_vars bs) b.instructions) (e, w)).0
                (run m b.instructions (f, w)).0 (run m b.instructions (f, w)).1 a'))
    ]
  ]

  exec-eliminate :
      (n : ℕ) (bs : List BasicBlock)
      → All IsGuarded (all_instructions bs)
      → (fuel : ℕ) (e : Env) (w : W) → exec m fuel (eliminate n bs) (e, w) ≡ exec m fuel bs (e, w)
  unfolding eliminate
  exec-eliminate zero bs g fuel e w = refl
  exec-eliminate (suc n) bs g fuel e w =
      elim (Bool-cases (any_dead (used_vars bs) (all_instructions bs))) [
        | inl more ↦
            let swept_bs : List BasicBlock = sweep_blocks (used_vars bs) bs in
            let g' : All IsGuarded (all_instructions swept_bs) =
              rw (all-sweep_blocks (used_vars bs) bs)
                (IsGuarded-sweep (used_vars bs) (all_instructions bs) g) in
            rw more
              (exec-eliminate n swept_bs g' fuel e w ∙ exec-sweep bs g fuel e e w (λ n h. refl))
        | inr done ↦ rw done
      ]

  -- The pass keeps what a function does: from every state of the machine, the blocks that are left
  -- end in the same state after as many blocks, or run on as long, whatever the values of the
  -- variables at the start. It is said of machines on which an operation that computes a value
  -- changes nothing else (so that a division does not trap), and of functions each of whose
  -- instructions is such an operation, is one that has to be kept (a call, a return, a branch, an
  -- array or volatile store, a volatile load, an access to a port of a byte, a write of a register,
  -- the control of the processor), or has no named result.
  pub exec-optimize :
      (fn : Function)
      → All IsGuarded (all_instructions fn.blocks)
      → (fuel : ℕ) (e : Env) (w : W)
      → exec m fuel (optimize fn).blocks (e, w) ≡ exec m fuel fn.blocks (e, w)
  unfolding optimize
  exec-optimize fn g = exec-eliminate (suc (length (all_instructions fn.blocks))) fn.blocks g
