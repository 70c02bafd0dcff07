-- ===== src/Loader/Load.antt =====
-- src/loader/ModuleLoader.hpp: `loadAndMerge`.
-- The file system, the lexer and the parser are parameters: the path that a name resolves to, the
-- text of a file, whether the lexer reports an error on it, and the statements that the parser
-- makes of it, if it does. A set of paths is a list, the latest in front.
use lsm_toolchain.Prelude.{
  ℕ, zero, suc, Bool, List, [], ◌∷◌, ◌++◌, String, Option, none, some, mem, str_eq, if◌then◌else◌,
}

-- A node of type `Import` has a path; an import of a C header is another statement, of type
-- `CImport`. What the others say is not read here.
pub data Statement : Type 0 where
  import_module : String → Statement
  other : ℕ → Statement

pub data LoadError : Type 0 where
  circular_import cannot_open lexer_error syntax_error : String → LoadError

pub record Loader : Type 0 where
  pub loaded_modules : List String
  pub visiting_modules : List String
  pub statements : List Statement

-- the result, and the loader after the call; or the fuel was not enough
pub data Outcome : Type 0 where
  ok : Loader → Outcome
  err : LoadError → Loader → Outcome
  out_of_fuel : Outcome

-- `visitingModules.erase(path)`
abbrev pub erase : String → List String → List String
erase p [] = []
erase p (q ∷ qs) = let rest = erase p qs in if str_eq q p then rest else q ∷ rest

-- the statements that stay when the imports are erased
abbrev pub own_statements : List Statement → List Statement
own_statements [] = []
own_statements (Statement.import_module p ∷ ss) = own_statements ss
own_statements (Statement.other n ∷ ss) = Statement.other n ∷ own_statements ss

-- the loop over the statements, which loads each import and leaves at an error
unfoldable pub import_all : (String → Loader → Outcome) → List Statement → Loader → Outcome
import_all load [] l = Outcome.ok l
import_all load (Statement.other n ∷ ss) l = import_all load ss l
import_all load (Statement.import_module p ∷ ss) l = elim (load p l) [
  | Outcome.ok l' ↦ import_all load ss l'
  | Outcome.err e l' ↦ Outcome.err e l'
  | Outcome.out_of_fuel ↦ Outcome.out_of_fuel
]

-- the statements of the module behind its imports, and the end of the call
unfoldable pub merge : String → List Statement → Outcome → Outcome
merge path ss (Outcome.ok l) = Outcome.ok (record {
  loaded_modules = path ∷ l.loaded_modules;
  visiting_modules = erase path l.visiting_modules;
  statements = l.statements ++ own_statements ss;
})
merge path ss (Outcome.err e l) = Outcome.err e l
merge path ss Outcome.out_of_fuel = Outcome.out_of_fuel

module _ (resolve : String → String) (read : String → String) (lexer_fails : String → Bool)
    (parse : String → Option (List Statement)) where
  -- what is done with a module that is neither loaded nor being visited, and not empty
  unfoldable pub load_new : (String → Loader → Outcome) → String → Loader → Outcome
  unfolding import_all merge
  load_new load path l =
      let l' = record l { visiting_modules = path ∷ l.visiting_modules } in
      if lexer_fails (read path)
      then Outcome.err (LoadError.lexer_error path) l'
      else elim (parse (read path)) [
        | none ↦ Outcome.err (LoadError.syntax_error path) l'
        | some ss ↦ merge path ss (import_all load ss l')
      ]

  -- `loadAndMerge`, at most `fuel` calls deep
  unfoldable pub load_and_merge : ℕ → String → Loader → Outcome
  unfolding load_new
  load_and_merge zero name l = Outcome.out_of_fuel
  load_and_merge (suc fuel) name l =
      let path = resolve name in
      let rest = load_new (load_and_merge fuel) path l in
      if mem path l.loaded_modules
      then Outcome.ok l
      else if mem path l.visiting_modules
      then Outcome.err (LoadError.circular_import path) l
      else if str_eq (read path) ""
      then Outcome.err (LoadError.cannot_open path) l
      else rest
