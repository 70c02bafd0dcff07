-- ===== src/Loader/Order.antt =====
-- src/loader/ModuleLoader.hpp: the order in which modules are merged.
use lsm_toolchain.Prelude.{
  ◌≡◌, refl, subst, ◌∙◌, ◌⊎◌, inl, inr, Bool, List, [], ◌∷◌, ◌++◌, String, Option, none, some, In,
}
use lsm_toolchain.Loader.Load.{Statement, LoadError, Loader, Outcome, own_statements, import_all}

pub Outcome-cases :
    (o : Outcome)
    → ((l : Loader) × (o ≡ Outcome.ok l))
      ⊎ (((e : LoadError) × (l : Loader) × (o ≡ Outcome.err e l)) ⊎ (o ≡ Outcome.out_of_fuel))
Outcome-cases (Outcome.ok l) = inl (l, refl)
Outcome-cases (Outcome.err e l) = inr (inl (e, l, refl))
Outcome-cases Outcome.out_of_fuel = inr (inr refl)

module _ (resolve : String → String) (read : String → String) (lexer_fails : String → Bool)
    (parse : String → Option (List Statement)) where
  abbrev pub statements_of : String → List Statement
  statements_of path = elim (parse (read path)) [ none ↦ [] | some ss ↦ ss ]

  -- Every module that the statements import is among the paths.
  abbrev pub ImportsIn : List Statement → List String → Type 0
  ImportsIn [] ps = Unit
  ImportsIn (Statement.other n ∷ ss) ps = ImportsIn ss ps
  ImportsIn (Statement.import_module p ∷ ss) ps = In (resolve p) ps × ImportsIn ss ps

  -- No path stands twice, and what a module imports was loaded before it.
  abbrev pub InOrder : List String → Type 0
  InOrder [] = Unit
  InOrder (p ∷ ps) = (¬ (In p ps)) × ImportsIn (statements_of p) ps × InOrder ps

  -- the statements of the modules, the first that was loaded in front
  abbrev pub merged : List String → List Statement
  merged [] = []
  merged (p ∷ ps) = merged ps ++ own_statements (statements_of p)

  pub record IsMerged (l : Loader) : Type 0 where
    pub in_order : InOrder l.loaded_modules
    pub all_merged : l.statements ≡ merged l.loaded_modules
    pub apart : (p : String) → In p l.visiting_modules → ¬ (In p l.loaded_modules)

  -- what a call that succeeds does
  pub record Step (l l' : Loader) : Type 0 where
    pub is_merged : IsMerged l'
    pub visiting : l'.visiting_modules ≡ l.visiting_modules
    pub extends : (p : String) → In p l.loaded_modules → In p l'.loaded_modules

  abbrev pub Loads : (String → Loader → Outcome) → Type 0
  Loads load =
      (name : String) (l l' : Loader)
      → IsMerged l
      → load name l ≡ Outcome.ok l'
      → Step l l' × In (resolve name) l'.loaded_modules

  ImportsIn-more :
      (ss : List Statement) (ps qs : List String)
      → ((p : String) → In p ps → In p qs)
      → ImportsIn ss ps
      → ImportsIn ss qs
  ImportsIn-more [] ps qs more h = tt
  ImportsIn-more (Statement.other n ∷ ss) ps qs more h = ImportsIn-more ss ps qs more h
  ImportsIn-more (Statement.import_module p ∷ ss) ps qs more h =
      (more (resolve p) h.0, ImportsIn-more ss ps qs more h.1)

  pub Step-import_all :
      (load : String → Loader → Outcome) (loads : Loads load) (ss : List Statement) (l l' : Loader)
      → IsMerged l
      → import_all load ss l ≡ Outcome.ok l'
      → Step l l' × ImportsIn ss l'.loaded_modules
  unfolding import_all
  Step-import_all load loads [] l l' h e =
      let same : l ≡ l' = cc in
      (subst (Step l) same (record { is_merged = h; visiting = refl; extends = λ p m. m }), tt)
  Step-import_all load loads (Statement.other n ∷ ss) l l' h e =
      Step-import_all load loads ss l l' h e
  Step-import_all load loads (Statement.import_module p ∷ ss) l l' h e =
      elim (Outcome-cases (load p l)) [
        | inr (inl (err, k, fails)) ↦
            absurd (let t : Outcome.err err k ≡ Outcome.ok l' = rw (fails, import_all) at e in cc)
        | inr (inr empty) ↦
            absurd (let t : Outcome.out_of_fuel ≡ Outcome.ok l' = rw (empty, import_all) at e in cc)
        | inl (k, works) ↦
            let (first, there) = loads p l k h works in
            let (rest, others) =
              Step-import_all load loads ss k l' first.is_merged (rw (works, import_all) at e) in
            (
              record {
                is_merged = rest.is_merged;
                visiting = rest.visiting ∙ first.visiting;
                extends = λ q m. rest.extends q (first.extends q m);
              },
              (rest.extends (resolve p) there, others),
            )
      ]
