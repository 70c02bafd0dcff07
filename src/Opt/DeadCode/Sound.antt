-- ===== src/Opt/DeadCode/Sound.antt =====
-- src/middleend/opt/DeadCodeElim.hpp: one sweep over a list of instructions keeps what it does.
use lsm_toolchain.Prelude.{
  ℕ, ◌≡◌, refl, sym, subst, ap₂, eq_iff, In-append_left, In-append_right, List, [], ◌∷◌, String,
  Bool, true, false, ◌||◌, not, In, inl, inr, mem, mem_iff, str_eq, arith, Bool-cases, All,
}
use lsm_toolchain.Ssa.{Op, Value, Instruction, is_named}
use lsm_toolchain.Ssa.Machine.{Env, Machine, eval_all, step, run}
use lsm_toolchain.Opt.DeadCode.{
  has_side_effects, is_dead, sweep_instructions, names_of, operand_names,
}

-- The operations that compute a value and leave the rest of the machine as it is. A slot for a
-- local variable or an array counts as such: nobody sees its address before a store.
abbrev pub leaves_world : Op → Bool
leaves_world Op.const_num = true
leaves_world Op.const_float = true
leaves_world Op.const_str = true
leaves_world Op.copy = true
leaves_world Op.add = true
leaves_world Op.sub = true
leaves_world Op.mul = true
leaves_world Op.div = true
leaves_world Op.modulo = true
leaves_world Op.bit_and = true
leaves_world Op.bit_or = true
leaves_world Op.bit_xor = true
leaves_world Op.bit_not = true
leaves_world Op.shl = true
leaves_world Op.shr = true
leaves_world Op.fadd = true
leaves_world Op.fsub = true
leaves_world Op.fmul = true
leaves_world Op.fdiv = true
leaves_world Op.equal = true
leaves_world Op.not_equal = true
leaves_world Op.less_than = true
leaves_world Op.less_equal = true
leaves_world Op.greater_than = true
leaves_world Op.greater_equal = true
leaves_world Op.fequal = true
leaves_world Op.fnot_equal = true
leaves_world Op.fless_than = true
leaves_world Op.fless_equal = true
leaves_world Op.fgreater_than = true
leaves_world Op.fgreater_equal = true
leaves_world Op.array_alloc = true
leaves_world Op.array_load = true
leaves_world Op.alloc_local = true
leaves_world Op.get_register = true
leaves_world Op.phi = true
leaves_world Op.vector_add = true
leaves_world _ = false

-- The machine's part: such an operation changes no memory, device or register.
pub record IsQuiet {W : Type 0} (m : Machine W) : Type 0 where
  pub quiet : (op : Op) (vs : List ℕ) (w : W) → leaves_world op ≡ true → (m.act op vs w).1 ≡ w

-- The operations that a pass over a function has to keep: calls and returns, branches, array and
-- volatile stores, volatile loads, accesses to ports of a byte, writes of registers, and the
-- control of the processor. Task spawns, atomic updates and accesses to ports of 16 bits are not
-- among them.
abbrev pub must_stay : Op → Bool
must_stay Op.call = true
must_stay Op.return = true
must_stay Op.branch = true
must_stay Op.cond_branch = true
must_stay Op.array_store = true
must_stay Op.volatile_store = true
must_stay Op.volatile_load = true
must_stay Op.io_port_write = true
must_stay Op.io_port_read = true
must_stay Op.set_register = true
must_stay Op.cpu_halt = true
must_stay Op.disable_interrupts = true
must_stay Op.enable_interrupts = true
must_stay _ = false

-- The pass takes each of them to have a side effect.
pub must_stay-has_side_effects : (op : Op) → must_stay op ≡ true → has_side_effects op ≡ true
unfolding has_side_effects
must_stay-has_side_effects op h = ground (arith, h)

-- The function's part: an instruction that does change them is one of those that have to be kept,
-- or its result has no name.
abbrev pub IsGuarded : Instruction → Type 0
IsGuarded i = (leaves_world i.op || must_stay i.op || not (is_named i)) ≡ true

-- Two environments give the same values to the names in use, and to the empty name.
abbrev pub Agree : List String → Env → Env → Type 0
Agree used e f = (n : String) → (mem n used || str_eq n "") ≡ true → e n ≡ f n

-- Every name of the first list is in the second.
abbrev pub Sub : List String → List String → Type 0
Sub xs ys = (n : String) → In n xs → In n ys

module _ {W : Type 0} (m : Machine W) (q : IsQuiet m) (used : List String) where
  eval-Agree :
      (e f : Env) (vs : List Value)
      → Sub (operand_names vs) used
      → Agree used e f
      → eval_all m e vs ≡ eval_all m f vs
  eval-Agree e f [] sub a = refl
  eval-Agree e f (v ∷ vs) sub a = elim (Bool-cases v.is_constant) [
    | inl c ↦ ap₂ ◌∷◌ (ground arith) (eval-Agree e f vs (λ n. rw c at (sub n)) a)
    | inr c ↦ elim (Bool-cases (str_eq v.name "")) [
      | inl empty ↦
          ap₂ ◌∷◌ (ground (arith, a v.name)) (eval-Agree e f vs (λ n. rw (c, empty) at (sub n)) a)
      | inr named ↦
          let sub' : Sub (v.name ∷ operand_names vs) used = λ n. rw (c, named) at (sub n) in
          let here = (mem_iff v.name used).1 (sub' v.name (inl refl)) in
          ap₂ ◌∷◌ (ground (arith, a v.name)) (eval-Agree e f vs (λ n k. sub' n (inr k)) a)
    ]
  ]

  -- An instruction that is erased leaves the world, and writes a name that is not in use.
  dead_step :
      (i : Instruction) (e f : Env) (w : W)
      → IsGuarded i
      → is_dead used i ≡ true
      → Agree used e f
      → Agree used e (step m i (f, w)).0 × ((step m i (f, w)).1 ≡ w)
  unfolding is_dead
  dead_step i e f w g d a = (
    λ n h. ground (arith, a n h, eq_iff i.result.name n, eq_iff n ""),
    q.quiet i.op (eval_all m f i.operands) w
        (ground (arith, g, d, must_stay-has_side_effects i.op)),
  )

  live_step :
      (i : Instruction) (e f : Env) (w : W)
      → Sub (operand_names i.operands) used
      → Agree used e f
      → Agree used (step m i (e, w)).0 (step m i (f, w)).0
        × ((step m i (e, w)).1 ≡ (step m i (f, w)).1)
  live_step i e f w sub a =
      rw (eval-Agree e f i.operands sub a) (λ n h. ground (arith, a n h), refl)

  -- what `run-sweep` says of the two runs' ends
  abbrev pub Same : Env × W → Env × W → Type 0
  Same s t = Agree used s.0 t.0 × (s.1 ≡ t.1)

  pub run-sweep :
      (is : List Instruction) (e f : Env) (w : W)
      → Sub (names_of is) used
      → All IsGuarded is
      → Agree used e f
      → Same (run m (sweep_instructions used is) (e, w)) (run m is (f, w))
  unfolding sweep_instructions
  run-sweep [] e f w sub g a = (a, refl)
  run-sweep (i ∷ is) e f w sub g a =
      let after : List String = names_of is in
      let sub_rest = λ (n : String) (k : In n after).
        sub n (In-append_right n (operand_names i.operands) after k) in
      let sub_here = λ (n : String) (k : In n (operand_names i.operands)).
        sub n (In-append_left n (operand_names i.operands) after k) in
      elim (Bool-cases (is_dead used i)) [
        | inl dead ↦
            let (a', same) = dead_step i e f w g.0 dead a in
            rw dead (
              subst
                (λ x.
                  Same (run m (sweep_instructions used is) (e, w))
                    (run m is ((step m i (f, w)).0, x)))
                (sym same) (run-sweep is e (step m i (f, w)).0 w sub_rest g.1 a'))
        | inr live ↦
            let (a', same) = live_step i e f w sub_here a in
            rw live (
              subst
                (λ x.
                  Same (run m (sweep_instructions used is) ((step m i (e, w)).0, x))
                    (run m is (step m i (f, w))))
                (sym same)
                (run-sweep is (step m i (e, w)).0 (step m i (f, w)).0 (step m i (f, w)).1 sub_rest
                  g.1 a'))
      ]
