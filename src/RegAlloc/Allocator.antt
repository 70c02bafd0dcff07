-- ===== src/RegAlloc/Allocator.antt =====
-- src/backend/regalloc/RegisterAllocator.hpp: the liveness analysis and one of the two allocators.
use mathlib.Core.List.{Permᴰ}
use lsm_toolchain.Prelude.{
  ℕ, ◌+◌, ◌≡◌, ◌≢◌, sym, subst, ◌∙◌, List, none, some, true, false, In, entry, arith, get_elem?,
  get_or, length,
}
use lsm_toolchain.Ssa.{ArchType, StaticType, Value, Instruction, Function, all_instructions}
use lsm_toolchain.RegAlloc.Interval.{LiveInterval, contains, overlaps}
use lsm_toolchain.RegAlloc.Liveness.{is_read, compute_intervals}
use lsm_toolchain.RegAlloc.Liveness.Intervals.{uses_contained}
use lsm_toolchain.RegAlloc.LinearScan.{AllocationResult, allocate}
use lsm_toolchain.RegAlloc.GraphColoring.{Node, color_graph}
use lsm_toolchain.RegAlloc.GraphColoring.Safe.{overlapping_differ}

pub data RegAllocStrategy : Type 0 where
  linear_scan graph_coloring : RegAllocStrategy

-- an element of a vector that is not there, which is not read
abbrev no_interval : LiveInterval
no_interval = record {
  var_name = "";
  type = StaticType.int64;
  start_point = 0;
  end_point = 0;
  is_spilled = false;
  stack_offset = 0;
  assigned = none;
}

module _ (sort : (ℕ → ℕ) → List ℕ → List ℕ) (walk : List Node → List Node)
    (arrange : List LiveInterval → List LiveInterval) where
  unfoldable pub allocate_intervals :
      RegAllocStrategy → ArchType → List LiveInterval → AllocationResult
  unfolding allocate color_graph
  allocate_intervals RegAllocStrategy.graph_coloring arch is = color_graph walk arch is
  allocate_intervals RegAllocStrategy.linear_scan arch is =
      allocate sort arch (length is) (λ k. get_or is k no_interval)

  -- `allocateFunction`
  unfoldable pub allocate_function : Function → ArchType → RegAllocStrategy → AllocationResult
  unfolding allocate_intervals compute_intervals
  allocate_function f arch strategy = allocate_intervals strategy arch (compute_intervals arrange f)

  contains-overlaps :
      (x y : LiveInterval) (k : ℕ) → contains x k ≡ true → contains y k ≡ true → overlaps x y ≡ true
  contains-overlaps x y k hx hy = ground (arith, hx, hy)

  -- With graph colouring: two different variables that one instruction reads, and that both get a
  -- register, get different ones. The orders in which the maps are walked are any permutations.
  pub operands_differ :
      (walk_permutes : (g : List Node) → Permᴰ (walk g) g)
      (arrange_permutes : (is : List LiveInterval) → Permᴰ (arrange is) is) (f : Function)
      (arch : ArchType) (n : ℕ) (i : Instruction) (v w : Value) (c d : ℕ)
      → get_elem? (all_instructions f.blocks) n ≡ some i
      → In v i.operands
      → In w i.operands
      → is_read v ≡ true
      → is_read w ≡ true
      → v.name ≢ w.name
      → entry v.name (allocate_function f arch RegAllocStrategy.graph_coloring).var_to_reg ≡ some c
      → entry w.name (allocate_function f arch RegAllocStrategy.graph_coloring).var_to_reg ≡ some d
      → c ≢ d
  unfolding allocate_function allocate_intervals
  operands_differ wp ap_ f arch n i v w c d at mv mw rv rw_ other ev ew =
      let (x, in_x, name_x, here_x) = uses_contained arrange ap_ f n i v at mv rv in
      let (y, in_y, name_y, here_y) = uses_contained arrange ap_ f n i w at mw rw_ in
      let is = compute_intervals arrange f in
      overlapping_differ walk wp arch is x y c d in_x in_y (λ e. other (sym name_x ∙ e ∙ name_y))
        (contains-overlaps x y (1 + n) here_x here_y)
        (subst (λ k. entry k (color_graph walk arch is).var_to_reg ≡ some c) (sym name_x) ev)
        (subst (λ k. entry k (color_graph walk arch is).var_to_reg ≡ some d) (sym name_y) ew)
