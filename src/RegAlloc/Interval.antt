-- ===== src/RegAlloc/Interval.antt =====
-- src/backend/regalloc/LivenessAnalyzer.hpp: live intervals.
-- -1 for no register is `none`. A stack offset, zero or negative in the source, is its magnitude.
use lsm_toolchain.Prelude.{ℕ, Bool, true, false, not, ◌||◌, ◌&&◌, String, Option, ltb, leb}
use lsm_toolchain.Ssa.{StaticType}

pub record LiveInterval : Type 0 where
  pub var_name : String
  pub type : StaticType
  pub start_point : ℕ
  pub end_point : ℕ
  pub is_spilled : Bool
  pub stack_offset : ℕ
  pub assigned : Option ℕ

abbrev pub contains : LiveInterval → ℕ → Bool
contains i point = leb i.start_point point && leb point i.end_point

abbrev pub overlaps : LiveInterval → LiveInterval → Bool
overlaps i other = not (ltb i.end_point other.start_point || ltb other.end_point i.start_point)

-- `type == LsmStaticType::Float64`
unfoldable pub is_float : StaticType → Bool
is_float StaticType.float64 = true
is_float _ = false
