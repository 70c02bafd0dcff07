-- ===== src/Tests/Coloring.antt =====
-- The theorems about liveness and graph colouring in src/backend/regalloc at small inputs.
use mathlib.Core.List.Permᴰ
use lsm_toolchain.Prelude.{
  ℕ, ◌%◌, ◌≤◌, ◌≡◌, ◌≢◌, inl, inr, refl, sym, subst, true, false, none, List, [], ◌∷◌, String, In,
  str_eq_false,
}
use lsm_toolchain.Ssa.{StaticType, ArchType, Op, Instruction, Function, make_var}
use lsm_toolchain.RegAlloc.Interval.{LiveInterval, is_float, contains}
use lsm_toolchain.RegAlloc.Liveness.{compute_intervals}
use lsm_toolchain.RegAlloc.Liveness.Intervals.{uses_contained}
use lsm_toolchain.RegAlloc.GraphColoring.{color_graph}
use lsm_toolchain.RegAlloc.GraphColoring.Safe.{overlapping_differ}
use lsm_toolchain.RegAlloc.GraphColoring.Complete.{every_placed, slots_apart}
use lsm_toolchain.RegAlloc.GraphColoring.Places.{HasPlace}
use lsm_toolchain.RegAlloc.Allocator.{allocate_function, operands_differ}

abbrev add_x_y : Instruction
add_x_y = record {
  op = Op.add;
  result = make_var "z" StaticType.int64;
  operands = make_var "x" StaticType.int64 ∷ make_var "y" StaticType.int64 ∷ [];
}

abbrev sum : Function
sum = record {
  name = "sum";
  params = ("x", StaticType.int64) ∷ ("y", StaticType.int64) ∷ [];
  return_type = StaticType.int64;
  blocks =
      record { label = "entry"; instructions = add_x_y ∷ []; predecessors = []; successors = [] }
      ∷ [];
  is_naked = false;
  is_inline = false;
}

uses_contained_example :
    (l : LiveInterval) × In l (compute_intervals (λ is. is) sum)
    × (l.var_name ≡ "x")
    × (contains l 1 ≡ true)
uses_contained_example =
    uses_contained (λ is. is) (λ is. Permᴰ.refl is) sum 0 add_x_y (make_var "x" StaticType.int64)
      refl (inl refl) refl

operands_differ_example : ◌≢◌ {A = ℕ} 2 3
unfolding allocate_function is_float
operands_differ_example =
    operands_differ (λ key xs. xs) (λ g. g) (λ is. is) (λ g. Permᴰ.refl g) (λ is. Permᴰ.refl is) sum
      ArchType.x86_64 0 add_x_y (make_var "x" StaticType.int64) (make_var "y" StaticType.int64) 2 3
      refl (inl refl) (inr (inl refl)) refl refl (str_eq_false "x" "y" refl) refl refl

abbrev whole : String → LiveInterval
whole name = record {
  var_name = name;
  type = StaticType.float64;
  start_point = 1;
  end_point = 9;
  is_spilled = false;
  stack_offset = 0;
  assigned = none;
}

-- sixteen variables that live at once, two more than there are registers
abbrev crowd : List LiveInterval
crowd =
    whole "a"
    ∷ whole "b"
    ∷ whole "c"
    ∷ whole "d"
    ∷ whole "e"
    ∷ whole "f"
    ∷ whole "g"
    ∷ whole "h"
    ∷ whole "i"
    ∷ whole "j"
    ∷ whole "k"
    ∷ whole "l"
    ∷ whole "m"
    ∷ whole "n"
    ∷ whole "o"
    ∷ whole "p"
    ∷ []

crowd-slots : (color_graph (λ g. g) ArchType.x86_64 crowd).var_to_stack ≡ ("p", 16) ∷ ("o", 8) ∷ []
unfolding color_graph is_float
crowd-slots = refl

slots_apart_example :
    ◌≢◌ {A = ℕ} 8 16
    × (8 ≤ 8)
    × (8 ≤ (color_graph (λ g. g) ArchType.x86_64 crowd).total_stack_spill_bytes)
    × (8 % 8 ≡ 0)
    × ((color_graph (λ g. g) ArchType.x86_64 crowd).total_stack_spill_bytes % 8 ≡ 0)
unfolding color_graph is_float
slots_apart_example =
    slots_apart (λ g. g) ArchType.x86_64 crowd "o" "p" 8 16 (str_eq_false "o" "p" refl) refl refl

every_placed_example :
    HasPlace "p" (color_graph (λ g. g) ArchType.x86_64 (whole "o" ∷ whole "p" ∷ []))
every_placed_example =
    every_placed (λ g. g) (λ g. Permᴰ.refl g) ArchType.x86_64 (whole "o" ∷ whole "p" ∷ [])
      (whole "p") (inr (inl refl))
      (λ i m. elim m [
        | inl e ↦ subst (λ (k : LiveInterval). k.var_name ≢ "") (sym e) (str_eq_false "o" "" refl)
        | inr r ↦ elim r [
          | inl e ↦ subst (λ (k : LiveInterval). k.var_name ≢ "") (sym e) (str_eq_false "p" "" refl)
          | inr n ↦ absurd n
        ]
      ])

overlapping_differ_example : ◌≢◌ {A = ℕ} 2 3
unfolding color_graph is_float
overlapping_differ_example =
    overlapping_differ (λ g. g) (λ g. Permᴰ.refl g) ArchType.x86_64 (whole "o" ∷ whole "p" ∷ [])
      (whole "p") (whole "o") 2 3 (inr (inl refl)) (inl refl) (str_eq_false "p" "o" refl) refl refl
      refl
