-- ===== src/Loader/Steps.antt =====
-- src/loader/ModuleLoader.hpp: a call that succeeds keeps the order.
use lsm_toolchain.Prelude.{
  ℕ, zero, suc, ◌≡◌, refl, sym, ap, ap₂, subst, ◌∙◌, inl, inr, Bool, true, false, List, [], ◌∷◌,
  ◌++◌, String, Option, mem, mem_iff, str_eq, str_eq_refl, str_eq_ne, In, Bool-cases, Option-cases,
}
use lsm_toolchain.Loader.Load.{
  Statement, LoadError, Loader, Outcome, erase, own_statements, import_all, merge, load_new,
  load_and_merge,
}
use lsm_toolchain.Loader.Order.{
  Outcome-cases, statements_of, ImportsIn, IsMerged, Step, Loads, Step-import_all,
}

not_mem : (a : String) (xs : List String) → mem a xs ≡ false → ¬ (In a xs)
not_mem a xs h m = let t : mem a xs ≡ true = (mem_iff a xs).1 m in absurd cc

erase-none : (p : String) (ps : List String) → ¬ (In p ps) → erase p ps ≡ ps
erase-none p [] m = refl
erase-none p (q ∷ qs) m =
    let other : str_eq q p ≡ false = str_eq_ne q p (λ e. m (inl (sym e))) in
    rw other (ap (λ k. q ∷ k) (erase-none p qs (λ n. m (inr n))))

module _ (resolve : String → String) (read : String → String) (lexer_fails : String → Bool)
    (parse : String → Option (List Statement)) where
  abbrev Merged : Loader → Type 0
  Merged = IsMerged resolve read lexer_fails parse

  abbrev Stepped : Loader → Loader → Type 0
  Stepped = Step resolve read lexer_fails parse

  abbrev Runs : (String → Loader → Outcome) → Type 0
  Runs = Loads resolve read lexer_fails parse

  abbrev parsed_of : String → List Statement
  parsed_of = statements_of resolve read lexer_fails parse

  abbrev Known : List Statement → List String → Type 0
  Known = ImportsIn resolve read lexer_fails parse

  erase-front : (p : String) (ps : List String) → ¬ (In p ps) → erase p (p ∷ ps) ≡ ps
  erase-front p ps m = rw (str_eq_refl p) (erase-none p ps m)

  pub IsMerged-visit :
      (path : String) (l : Loader)
      → mem path l.loaded_modules ≡ false
      → Merged l
      → Merged (record l { visiting_modules = path ∷ l.visiting_modules })
  IsMerged-visit path l new h = record {
    in_order = h.in_order;
    all_merged = h.all_merged;
    apart = λ p m. elim m [
      | inl e ↦ subst (λ k. ¬ (In k l.loaded_modules)) (sym e) (not_mem path l.loaded_modules new)
      | inr k ↦ h.apart p k
    ];
  }

  -- the end of a call that loads a module
  Step-merge :
      (path : String) (ss : List Statement) (l k : Loader)
      → parsed_of path ≡ ss
      → mem path l.visiting_modules ≡ false
      → Stepped (record l { visiting_modules = path ∷ l.visiting_modules }) k
      → Known ss k.loaded_modules
      → Stepped l (record {
        loaded_modules = path ∷ k.loaded_modules;
        visiting_modules = erase path k.visiting_modules;
        statements = k.statements ++ own_statements ss;
      })
  Step-merge path ss l k parsed free step imports =
      let fresh = not_mem path l.visiting_modules free in
      let back : erase path k.visiting_modules ≡ l.visiting_modules =
        ap (erase path) step.visiting ∙ erase-front path l.visiting_modules fresh in
      let here : In path k.visiting_modules = subst (In path) (sym step.visiting) (inl refl) in
      record {
        is_merged = record {
          in_order = (
            step.is_merged.apart path here,
            subst (λ s. Known s k.loaded_modules) (sym parsed) imports,
            step.is_merged.in_order,
          );
          all_merged = ap₂ (λ a b. a ++ own_statements b) step.is_merged.all_merged (sym parsed);
          apart = λ p m.
              let m' : In p l.visiting_modules = subst (In p) back m in
              λ n. elim n [
                | inl e ↦ fresh (subst (λ q. In q l.visiting_modules) e m')
                | inr r ↦ step.is_merged.apart p (subst (In p) (sym step.visiting) (inr m')) r
              ];
        };
        visiting = back;
        extends = λ p m. inr (step.extends p m);
      }

  Step-end :
      (load : String → Loader → Outcome) (loads : Runs load) (path : String) (ss : List Statement)
      (l l' : Loader)
      → Merged l
      → mem path l.loaded_modules ≡ false
      → mem path l.visiting_modules ≡ false
      → parsed_of path ≡ ss
      → merge path ss
          (import_all load ss (record l { visiting_modules = path ∷ l.visiting_modules }))
        ≡ Outcome.ok l'
      → Stepped l l' × In path l'.loaded_modules
  unfolding merge
  Step-end load loads path ss l l' h new free own e =
      let l1 : Loader = record l { visiting_modules = path ∷ l.visiting_modules } in
      elim (Outcome-cases (import_all load ss l1)) [
        | inr (inl (err, k, fails)) ↦
            absurd (let t : Outcome.err err k ≡ Outcome.ok l' = rw (fails, merge) at e in cc)
        | inr (inr empty) ↦
            absurd (let t : Outcome.out_of_fuel ≡ Outcome.ok l' = rw (empty, merge) at e in cc)
        | inl (k, works) ↦
            let (step, imports) =
              Step-import_all resolve read lexer_fails parse load loads ss l1 k
                (IsMerged-visit path l new h) works in
            let done = Step-merge path ss l k own free step imports in
            let same : Outcome.ok (record {
              loaded_modules = path ∷ k.loaded_modules;
              visiting_modules = erase path k.visiting_modules;
              statements = k.statements ++ own_statements ss;
            })
                ≡ Outcome.ok l' =
              rw (works, merge) at e in
            let same' : record {
              loaded_modules = path ∷ k.loaded_modules;
              visiting_modules = erase path k.visiting_modules;
              statements = k.statements ++ own_statements ss;
            }
                ≡ l' =
              cc in
            (
              subst (Stepped l) same' done,
              subst (λ (m : Loader). In path m.loaded_modules) same' (inl refl),
            )
      ]

  Step-load_new :
      (load : String → Loader → Outcome) (loads : Runs load) (path : String) (l l' : Loader)
      → Merged l
      → mem path l.loaded_modules ≡ false
      → mem path l.visiting_modules ≡ false
      → load_new resolve read lexer_fails parse load path l ≡ Outcome.ok l'
      → Stepped l l' × In path l'.loaded_modules
  unfolding load_new merge
  Step-load_new load loads path l l' h new free e =
      let l1 : Loader = record l { visiting_modules = path ∷ l.visiting_modules } in
      elim (Bool-cases (lexer_fails (read path))) [
        | inl bad ↦ absurd (
            let t : Outcome.err (LoadError.lexer_error path) l1 ≡ Outcome.ok l' =
              rw (bad, load_new) at e in
            cc)
        | inr fine ↦ elim (Option-cases (parse (read path))) [
          | inl bad ↦ absurd (
              let t : Outcome.err (LoadError.syntax_error path) l1 ≡ Outcome.ok l' =
                rw (fine, bad, load_new) at e in
              cc)
          | inr (ss, parsed) ↦
              let end_ : merge path ss (import_all load ss l1) ≡ Outcome.ok l' =
                rw (fine, parsed, load_new) at e in
              let own : parsed_of path ≡ ss = rw (parsed, statements_of) refl in
              Step-end load loads path ss l l' h new free own end_
        ]
      ]

  pub Loads-load_and_merge : (fuel : ℕ) → Runs (load_and_merge resolve read lexer_fails parse fuel)
  unfolding load_and_merge
  Loads-load_and_merge zero name l l' h e = absurd cc
  Loads-load_and_merge (suc fuel) name l l' h e =
      let path = resolve name in
      elim (Bool-cases (mem path l.loaded_modules)) [
        | inl there ↦
            let same : Outcome.ok l ≡ Outcome.ok l' = rw (there, load_and_merge) at e in
            let same' : l ≡ l' = cc in
            (
              subst (Stepped l) same'
                  (record { is_merged = h; visiting = refl; extends = λ p m. m }),
              subst (λ (k : Loader). In path k.loaded_modules) same'
                  ((mem_iff path l.loaded_modules).0 there),
            )
        | inr new ↦ elim (Bool-cases (mem path l.visiting_modules)) [
          | inl circular ↦ absurd (
              let t : Outcome.err (LoadError.circular_import path) l ≡ Outcome.ok l' =
                rw (new, circular, load_and_merge) at e in
              cc)
          | inr free ↦ elim (Bool-cases (str_eq (read path) "")) [
            | inl empty ↦ absurd (
                let t : Outcome.err (LoadError.cannot_open path) l ≡ Outcome.ok l' =
                  rw (new, free, empty, load_and_merge) at e in
                cc)
            | inr full ↦
                Step-load_new (load_and_merge resolve read lexer_fails parse fuel)
                  (Loads-load_and_merge fuel) path l l' h new free
                  (rw (new, free, full, load_and_merge) at e)
          ]
        ]
      ]
