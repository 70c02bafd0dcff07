-- ===== src/Loader/Paths.antt =====
-- src/loader/ModuleLoader.hpp: where a module's file is looked for.
-- Which files can be opened is a parameter.
use Prim.Native.String.{String, ◌++◌, find, len}
use lsm_toolchain.Prelude.{Bool, List, [], ◌∷◌, Option, none, some, ltb, if◌then◌else◌}

-- `moduleName.find(".lsm") == std::string::npos`
abbrev pub has_no_extension : String → Bool
has_no_extension name = ltb (len name) (find name ".lsm")

abbrev pub default_paths : List String
default_paths = "." ∷ "libs" ∷ "libs/std" ∷ []

-- `addSearchPath`
abbrev pub add_search_path : String → List String → List String
add_search_path path [] = path ∷ []
add_search_path path (p ∷ ps) = p ∷ add_search_path path ps

module _ (opens : String → Bool) where
  -- the loop over the search paths
  unfoldable pub search_in : String → List String → Option String
  search_in name [] = none
  search_in name (base ∷ rest) =
      let next = search_in name rest in
      let candidate = base ++ "/" ++ name in
      let extended = candidate ++ ".lsm" in
      if opens candidate
      then some candidate
      else if has_no_extension name
      then (if opens extended then some extended else next)
      else next

  unfoldable pub resolve_path : List String → String → String
  unfolding search_in
  resolve_path paths name =
      if opens name then name else elim (search_in name paths) [ none ↦ name | some p ↦ p ]
