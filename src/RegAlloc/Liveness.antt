-- ===== src/RegAlloc/Liveness.antt =====
-- src/backend/regalloc/LivenessAnalyzer.hpp: `computeIntervals`.
-- The maps are lists of entries; a key of the definition points stands there once. In which order
-- the map of definition points is walked, and how `std::sort` orders intervals of one start, is
-- the parameter `arrange`.
pub mod Cover
pub mod Intervals
use lsm_toolchain.Prelude.{
  ℕ, ◌+◌, Bool, List, [], ◌∷◌, String, Option, none, some, false, not, ◌&&◌, str_eq, entry, ltb,
  if◌then◌else◌, map,
}
use lsm_toolchain.Ssa.{StaticType, Value, Instruction, Function, is_named, all_instructions}
use lsm_toolchain.RegAlloc.Interval.{LiveInterval}

pub record Points : Type 0 where
  pub def_points : List (String × ℕ)
  pub last_use_points : List (String × ℕ)
  pub var_types : List (String × StaticType)

-- `if (m.find(k) == m.end()) m[k] = v`
unfoldable pub insert_new : String → ℕ → List (String × ℕ) → List (String × ℕ)
insert_new k v m = elim (entry k m) [ none ↦ (k, v) ∷ m | some old ↦ m ]

-- The loop over the parameters, whose point is 0: a name that is there has that point already.
unfoldable pub note_params : List (String × StaticType) → Points → Points
unfolding insert_new
note_params [] p = p
note_params ((n, t) ∷ ps) p = note_params ps (record {
  def_points = insert_new n 0 p.def_points;
  last_use_points = (n, 0) ∷ p.last_use_points;
  var_types = (n, t) ∷ p.var_types;
})

-- a variable among the operands
abbrev pub is_read : Value → Bool
is_read v = not v.is_constant && not (str_eq v.name "")

unfoldable pub note_use : ℕ → Value → Points → Points
unfolding insert_new
note_use k v p =
    if is_read v
    then (record {
      def_points = insert_new v.name k p.def_points;
      last_use_points = (v.name, k) ∷ p.last_use_points;
      var_types = (v.name, v.type) ∷ p.var_types;
    })
    else p

unfoldable pub note_uses : ℕ → List Value → Points → Points
unfolding note_use
note_uses k [] p = p
note_uses k (v ∷ vs) p = note_uses k vs (note_use k v p)

unfoldable pub note_result : ℕ → Instruction → Points → Points
unfolding insert_new
note_result k i p =
    if is_named i
    then (record {
      def_points = insert_new i.result.name k p.def_points;
      last_use_points = insert_new i.result.name k p.last_use_points;
      var_types = (i.result.name, i.result.type) ∷ p.var_types;
    })
    else p

-- the loop over the instructions, of which the first has the index `k`
unfoldable pub note_instructions : ℕ → List Instruction → Points → Points
unfolding note_uses note_result
note_instructions k [] p = p
note_instructions k (i ∷ is) p =
    note_instructions (k + 1) is (note_result k i (note_uses k i.operands p))

unfoldable pub points : Function → Points
unfolding note_params note_instructions
points f =
    note_instructions 1 (all_instructions f.blocks)
      (note_params f.params (record { def_points = []; last_use_points = []; var_types = [] }))

abbrev pub value_or : {A : Type 0} → A → Option A → A
value_or d none = d
value_or d (some a) = a

abbrev pub interval_of : Points → String × ℕ → LiveInterval
interval_of p (name, start) =
    let last = value_or 0 (entry name p.last_use_points) in
    record {
      var_name = name;
      type = value_or StaticType.int64 (entry name p.var_types);
      start_point = start;
      end_point = if ltb last start then start else last;
      is_spilled = false;
      stack_offset = 0;
      assigned = none;
    }

unfoldable pub compute_intervals :
    (List LiveInterval → List LiveInterval) → Function → List LiveInterval
unfolding points
compute_intervals arrange f = let p = points f in arrange (map (interval_of p) p.def_points)
