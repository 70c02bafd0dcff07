-- ===== src/Loader/Cycles.antt =====
-- src/loader/ModuleLoader.hpp: what circular imports lead to.
use lsm_toolchain.Prelude.{
  ℕ, suc, ◌≡◌, ◌≤◌, ◌<◌, sym, subst, inl, inr, Bool, true, false, List, [], ◌∷◌, String, Option,
  str_eq, str_eq_ne, In, length, eq_iff, if◌then◌else◌, arith,
}
use lsm_toolchain.Loader.Load.{Statement}
use lsm_toolchain.Loader.Order.{statements_of, ImportsIn, InOrder}

-- how many stand behind an element, and itself
abbrev position : String → List String → ℕ
position p [] = 0
position p (x ∷ xs) = let rest = position p xs in if str_eq x p then suc (length xs) else rest

position-le : (p : String) (xs : List String) → position p xs ≤ length xs
position-le p [] = omega arith
position-le p (x ∷ xs) = ground (arith, position-le p xs)

module _ (resolve : String → String) (read : String → String) (lexer_fails : String → Bool)
    (parse : String → Option (List Statement)) where
  -- the first module imports the second
  abbrev pub Imports : String → String → Type 0
  Imports p q =
      (name : String) × In (Statement.import_module name)
        (statements_of resolve read lexer_fails parse p)
      × (resolve name ≡ q)

  -- the first module imports the second, or a module that reaches it
  pub data Reaches : String → String → Type 0 where
    direct : {p q : String} → Imports p q → Reaches p q
    through : {p q r : String} → Imports p q → Reaches q r → Reaches p r

  ImportsIn-In :
      (ss : List Statement) (ps : List String) (name : String)
      → ImportsIn resolve read lexer_fails parse ss ps
      → In (Statement.import_module name) ss
      → In (resolve name) ps
  ImportsIn-In [] ps name h m = absurd m
  ImportsIn-In (Statement.other n ∷ ss) ps name h (inl e) = absurd cc
  ImportsIn-In (Statement.other n ∷ ss) ps name h (inr m) = ImportsIn-In ss ps name h m
  ImportsIn-In (Statement.import_module p ∷ ss) ps name h (inl e) =
      let same : name ≡ p = cc in subst (λ k. In (resolve k) ps) (sym same) h.0
  ImportsIn-In (Statement.import_module p ∷ ss) ps name h (inr m) = ImportsIn-In ss ps name h.1 m

  Imports-earlier :
      (p q : String) (ps : List String)
      → InOrder resolve read lexer_fails parse ps
      → In p ps
      → Imports p q
      → In q ps × (position q ps < position p ps)
  Imports-earlier p q [] h m i = absurd m
  Imports-earlier p q (x ∷ xs) h (inl e) (name, in_, goes) =
      let in_x =
        subst
          (λ k. In (Statement.import_module name) (statements_of resolve read lexer_fails parse k))
          e in_ in
      let q_in : In q xs = subst (λ k. In k xs) goes (ImportsIn-In _ xs name h.1 in_x) in
      let here : str_eq x p ≡ true = (eq_iff x p).1 (sym e) in
      let there : str_eq x q ≡ false =
        str_eq_ne x q (λ k. h.0 (subst (λ n. In n xs) (sym k) q_in)) in
      (inr q_in, rw (here, there) (omega (arith, position-le q xs)))
  Imports-earlier p q (x ∷ xs) h (inr m) i =
      let (q_in, less) = Imports-earlier p q xs h.2 m i in
      let p_there : str_eq x p ≡ false =
        str_eq_ne x p (λ k. h.0 (subst (λ n. In n xs) (sym k) m)) in
      let q_there : str_eq x q ≡ false =
        str_eq_ne x q (λ k. h.0 (subst (λ n. In n xs) (sym k) q_in)) in
      (inr q_in, rw (p_there, q_there) less)

  pub Reaches-earlier :
      (p q : String) (ps : List String)
      → InOrder resolve read lexer_fails parse ps
      → In p ps
      → Reaches p q
      → In q ps × (position q ps < position p ps)
  Reaches-earlier p q ps h m (Reaches.direct i) = Imports-earlier p q ps h m i
  Reaches-earlier p r ps h m (Reaches.through {q = q} i rest) =
      let (q_in, less) = Imports-earlier p q ps h m i in
      let (r_in, less') = Reaches-earlier q r ps h q_in rest in (r_in, omega (arith, less, less'))
