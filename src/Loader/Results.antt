-- ===== src/Loader/Results.antt =====
-- src/loader/ModuleLoader.hpp: what a call of a new loader returns.
use lsm_toolchain.Prelude.{
  ℕ, suc, ◌≡◌, refl, inl, inr, Bool, false, List, [], ◌∷◌, String, Option, str_eq, In, length,
  arith, ap,
}
use lsm_toolchain.Loader.Load.{Statement, LoadError, Loader, Outcome, load_and_merge}
use lsm_toolchain.Loader.Order.{Outcome-cases, IsMerged, InOrder, merged}
use lsm_toolchain.Loader.Steps.{Loads-load_and_merge}
use lsm_toolchain.Loader.Ends.{left, load_and_merge-Ends}
use lsm_toolchain.Loader.Cycles.{Reaches, Reaches-earlier}

abbrev pub new_loader : Loader
new_loader = record { loaded_modules = []; visiting_modules = []; statements = [] }

left_all : (fs : List String) → left [] fs ≡ length fs
unfolding left
left_all [] = refl
left_all (f ∷ fs) = ap suc (left_all fs)

module _ (resolve : String → String) (read : String → String) (lexer_fails : String → Bool)
    (parse : String → Option (List Statement)) where
  new-IsMerged : IsMerged resolve read lexer_fails parse new_loader
  new-IsMerged = record { in_order = tt; all_merged = refl; apart = λ p m. absurd m }

  -- A call on a new loader that succeeds has loaded the module: the modules loaded are in order,
  -- each once and behind all that it imports; the program is the modules' statements but for the
  -- imports, in that order; and no module is being visited any more.
  pub load_merges :
      (fuel : ℕ) (name : String) (l : Loader)
      → load_and_merge resolve read lexer_fails parse fuel name new_loader ≡ Outcome.ok l
      → In (resolve name) l.loaded_modules
        × InOrder resolve read lexer_fails parse l.loaded_modules
        × (l.statements ≡ merged resolve read lexer_fails parse l.loaded_modules)
        × (l.visiting_modules ≡ [])
  load_merges fuel name l e =
      let (step, there) =
        Loads-load_and_merge resolve read lexer_fails parse fuel name new_loader l new-IsMerged e in
      (there, step.is_merged.in_order, step.is_merged.all_merged, step.visiting)

  -- Where all files that are not empty are in a list, one call more than the list is long is deep
  -- enough: a module that reaches itself through imports is refused with an error.
  pub circular_is_error :
      (files : List String) (finite : (p : String) → str_eq (read p) "" ≡ false → In p files)
      (name : String)
      → Reaches resolve read lexer_fails parse (resolve name) (resolve name)
      → (e : LoadError) × (l : Loader) × (load_and_merge resolve read lexer_fails parse
            (suc (length files))
            name
            new_loader
          ≡ Outcome.err e l)
  circular_is_error files finite name cycle =
      let run =
        load_and_merge resolve read lexer_fails parse (suc (length files)) name new_loader in
      elim (Outcome-cases run) [
        | inr (inl found) ↦ found
        | inr (inr empty) ↦ absurd (
            load_and_merge-Ends resolve read lexer_fails parse files finite (length files) name
              new_loader new-IsMerged (omega (arith, left_all files)) empty)
        | inl (l, works) ↦
            let (there, ordered, all, none_) = load_merges (suc (length files)) name l works in
            let (again, less) =
              Reaches-earlier resolve read lexer_fails parse (resolve name) (resolve name)
                l.loaded_modules ordered there cycle in
            absurd (omega (arith, less))
      ]
