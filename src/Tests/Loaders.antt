-- ===== src/Tests/Loaders.antt =====
-- The theorems about src/loader/ModuleLoader.hpp at small inputs.
use lsm_toolchain.Prelude.{
  ◌≡◌, refl, inl, inr, Bool, true, false, List, [], ◌∷◌, String, Option, some, str_eq, In,
  Bool-cases, eq_iff, if◌then◌else◌,
}
use lsm_toolchain.Loader.Paths.{default_paths, add_search_path, resolve_path}
use lsm_toolchain.Loader.Load.{Statement, LoadError, Loader, Outcome, load_and_merge}
use lsm_toolchain.Loader.Order.{InOrder, merged}
use lsm_toolchain.Loader.Cycles.{Imports, Reaches}
use lsm_toolchain.Loader.Results.{new_loader, load_merges, circular_is_error}

-- Two files: a program, and a module among the libraries, which it imports.
abbrev opens : String → Bool
opens p = if str_eq p "main" then true else str_eq p "libs/io.lsm"

abbrev path_of : String → String
path_of name = resolve_path opens default_paths name

-- a path that is added is searched last
added : resolve_path opens (add_search_path "ext" default_paths) "io" ≡ "libs/io.lsm"
unfolding resolve_path
added = refl

found : path_of "io" ≡ "libs/io.lsm"
unfolding resolve_path
found = refl

abbrev contents : String → String
contents p = if str_eq p "main" then "import io" else if str_eq p "libs/io.lsm" then "write" else ""

abbrev statements : String → Option (List Statement)
statements text =
    if str_eq text "import io"
    then some (Statement.import_module "io" ∷ Statement.other 1 ∷ [])
    else some (Statement.other 2 ∷ [])

abbrev merged_loader : Loader
merged_loader = record {
  loaded_modules = "main" ∷ "libs/io.lsm" ∷ [];
  visiting_modules = [];
  statements = Statement.other 2 ∷ Statement.other 1 ∷ [];
}

load_merges_example :
    In "main" merged_loader.loaded_modules
    × InOrder path_of contents (λ t. false) statements merged_loader.loaded_modules
    × (merged_loader.statements
        ≡ merged path_of contents (λ t. false) statements merged_loader.loaded_modules)
    × (merged_loader.visiting_modules ≡ [])
unfolding load_and_merge resolve_path
load_merges_example =
    load_merges path_of contents (λ t. false) statements 3 "main" merged_loader refl

-- one file, which imports itself
abbrev alone : String → String
alone p = if str_eq p "loop" then "import loop" else ""

abbrev imports_itself : String → Option (List Statement)
imports_itself text = some (Statement.import_module "loop" ∷ [])

alone-finite : (p : String) → str_eq (alone p) "" ≡ false → In p ("loop" ∷ [])
alone-finite p h = elim (Bool-cases (str_eq p "loop")) [
  | inl here ↦ inl ((eq_iff p "loop").0 here)
  | inr there ↦ absurd (let t : true ≡ false = rw there at h in cc)
]

loop-Imports : Imports (λ n. n) alone (λ t. false) imports_itself "loop" "loop"
loop-Imports = ("loop", inl refl, refl)

circular_is_error_example :
    (e : LoadError) × (l : Loader) × (load_and_merge
        (λ n. n)
        alone
        (λ t. false)
        imports_itself
        2
        "loop"
        new_loader
      ≡ Outcome.err e l)
circular_is_error_example =
    circular_is_error (λ n. n) alone (λ t. false) imports_itself ("loop" ∷ []) alone-finite "loop"
      (Reaches.direct loop-Imports)
