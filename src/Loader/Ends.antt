-- ===== src/Loader/Ends.antt =====
-- src/loader/ModuleLoader.hpp: the recursion over imports ends.
use lsm_toolchain.Prelude.{
  ℕ, zero, suc, ◌≡◌, ◌≢◌, ◌≤◌, ◌<◌, refl, sym, ap, subst, ◌∙◌, inl, inr, Bool, true, false, List,
  [], ◌∷◌, String, Option, mem, str_eq, str_eq_refl, In, Bool-cases, Option-cases, if◌then◌else◌,
  arith,
}
use lsm_toolchain.Loader.Load.{
  Statement, LoadError, Loader, Outcome, import_all, merge, load_new, load_and_merge,
}
use lsm_toolchain.Loader.Order.{Outcome-cases, IsMerged, Loads}
use lsm_toolchain.Loader.Steps.{IsMerged-visit, Loads-load_and_merge}

-- the files that are not being visited
unfoldable pub left : List String → List String → ℕ
left visiting [] = 0
left visiting (f ∷ fs) = let rest = left visiting fs in if mem f visiting then rest else suc rest

left-le : (p : String) (visiting fs : List String) → left (p ∷ visiting) fs ≤ left visiting fs
unfolding left
left-le p visiting [] = omega arith
left-le p visiting (f ∷ fs) = ground (arith, left-le p visiting fs)

left-drop :
    (p : String) (visiting fs : List String)
    → mem p visiting ≡ false
    → In p fs
    → left (p ∷ visiting) fs < left visiting fs
unfolding left
left-drop p visiting [] h m = absurd m
left-drop p visiting (f ∷ fs) h (inl e) =
    let here : str_eq p f ≡ true = subst (λ k. str_eq p k ≡ true) e (str_eq_refl p) in
    let new : mem f visiting ≡ false = ap (λ k. mem k visiting) (sym e) ∙ h in
    rw (here, new) (omega (arith, left-le p visiting fs))
left-drop p visiting (f ∷ fs) h (inr m) = ground (arith, left-drop p visiting fs h m)

module _ (resolve : String → String) (read : String → String) (lexer_fails : String → Bool)
    (parse : String → Option (List Statement)) (files : List String)
    (finite : (p : String) → str_eq (read p) "" ≡ false → In p files) where
  abbrev pub Ends : ℕ → (String → Loader → Outcome) → Type 0
  Ends n load =
      (name : String) (l : Loader)
      → IsMerged resolve read lexer_fails parse l
      → left l.visiting_modules files ≤ n
      → load name l ≢ Outcome.out_of_fuel

  import_all-Ends :
      (n : ℕ) (load : String → Loader → Outcome)
      → Loads resolve read lexer_fails parse load
      → Ends n load
      → (ss : List Statement) (l : Loader) → IsMerged resolve read lexer_fails parse l
      → left l.visiting_modules files ≤ n
      → import_all load ss l ≢ Outcome.out_of_fuel
  unfolding import_all Ends
  import_all-Ends n load loads ends [] l h le e = cc
  import_all-Ends n load loads ends (Statement.other k ∷ ss) l h le e =
      import_all-Ends n load loads ends ss l h le e
  import_all-Ends n load loads ends (Statement.import_module p ∷ ss) l h le e =
      elim (Outcome-cases (load p l)) [
        | inr (inr empty) ↦ ends p l h le empty
        | inr (inl (err, k, fails)) ↦
            let t : Outcome.err err k ≡ Outcome.out_of_fuel = rw (fails, import_all) at e in
            absurd cc
        | inl (k, works) ↦
            let (step, there) = loads p l k h works in
            import_all-Ends n load loads ends ss k step.is_merged
              (subst (λ v. left v files ≤ n) (sym step.visiting) le) (rw (works, import_all) at e)
      ]

  merge-ends :
      (path : String) (ss : List Statement) (o : Outcome)
      → o ≢ Outcome.out_of_fuel
      → merge path ss o ≢ Outcome.out_of_fuel
  unfolding merge
  merge-ends path ss (Outcome.ok l) h e = cc
  merge-ends path ss (Outcome.err x l) h e = cc
  merge-ends path ss Outcome.out_of_fuel h e = h refl

  load_new-Ends :
      (n : ℕ) (load : String → Loader → Outcome)
      → Loads resolve read lexer_fails parse load
      → Ends n load
      → (path : String) (l : Loader) → IsMerged resolve read lexer_fails parse l
      → mem path l.loaded_modules ≡ false
      → left (path ∷ l.visiting_modules) files ≤ n
      → load_new resolve read lexer_fails parse load path l ≢ Outcome.out_of_fuel
  unfolding load_new
  load_new-Ends n load loads ends path l h new le e =
      let l1 : Loader = record l { visiting_modules = path ∷ l.visiting_modules } in
      elim (Bool-cases (lexer_fails (read path))) [
        | inl bad ↦
            let t : Outcome.err (LoadError.lexer_error path) l1 ≡ Outcome.out_of_fuel =
              rw (bad, load_new) at e in
            absurd cc
        | inr fine ↦ elim (Option-cases (parse (read path))) [
          | inl bad ↦
              let t : Outcome.err (LoadError.syntax_error path) l1 ≡ Outcome.out_of_fuel =
                rw (fine, bad, load_new) at e in
              absurd cc
          | inr (ss, parsed) ↦
              merge-ends path ss (import_all load ss l1)
                (import_all-Ends n load loads ends ss l1
                  (IsMerged-visit resolve read lexer_fails parse path l new h) le)
                (rw (fine, parsed, load_new) at e)
        ]
      ]

  -- a call, but for the module that it loads
  call-ends :
      (n : ℕ) (name : String) (l : Loader)
      → (mem (resolve name) l.loaded_modules ≡ false
          → left (resolve name ∷ l.visiting_modules) files < left l.visiting_modules files
          → load_new resolve read lexer_fails parse
              (load_and_merge resolve read lexer_fails parse n)
              (resolve name)
              l
            ≢ Outcome.out_of_fuel)
      → load_and_merge resolve read lexer_fails parse (suc n) name l ≢ Outcome.out_of_fuel
  unfolding load_and_merge
  call-ends n name l deeper e =
      let path = resolve name in
      elim (Bool-cases (mem path l.loaded_modules)) [
        | inl there ↦
            let t : Outcome.ok l ≡ Outcome.out_of_fuel = rw (there, load_and_merge) at e in
            absurd cc
        | inr new ↦ elim (Bool-cases (mem path l.visiting_modules)) [
          | inl circular ↦
              let t : Outcome.err (LoadError.circular_import path) l ≡ Outcome.out_of_fuel =
                rw (new, circular, load_and_merge) at e in
              absurd cc
          | inr free ↦ elim (Bool-cases (str_eq (read path) "")) [
            | inl empty ↦
                let t : Outcome.err (LoadError.cannot_open path) l ≡ Outcome.out_of_fuel =
                  rw (new, free, empty, load_and_merge) at e in
                absurd cc
            | inr full ↦
                deeper new (left-drop path l.visiting_modules files free (finite path full))
                  (rw (new, free, full, load_and_merge) at e)
          ]
        ]
      ]

  -- One call more than there are files that are not being visited is deep enough.
  pub load_and_merge-Ends : (n : ℕ) → Ends n (load_and_merge resolve read lexer_fails parse (suc n))
  unfolding Ends
  load_and_merge-Ends zero name l h le =
      call-ends zero name l (λ new drop. absurd (omega (arith, drop, le)))
  load_and_merge-Ends (suc m) name l h le = call-ends (suc m) name l (λ new drop.
      load_new-Ends m (load_and_merge resolve read lexer_fails parse (suc m))
        (Loads-load_and_merge resolve read lexer_fails parse (suc m)) (load_and_merge-Ends m)
        (resolve name) l h new (omega (arith, drop, le)))
