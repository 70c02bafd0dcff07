-- ===== src/RegAlloc/GraphColoring/Removal.antt =====
-- src/backend/regalloc/GraphColoring.hpp: the loop that removes the nodes ends, with all of them.
use lsm_toolchain.Prelude.{
  ℕ, zero, suc, ◌+◌, ◌≤◌, ◌<◌, ◌≡◌, ◌≢◌, refl, sym, ap, subst, ◌∙◌, ◌⊎◌, inl, inr, List, [], ◌∷◌,
  String, true, false, some, mem, mem_iff, str_eq, str_eq_ne, ltb, leb, In, Distinct, Bool-cases,
  Option-cases, if◌then◌else◌, eq_iff, arith, length,
}
use lsm_toolchain.Ssa.{ArchType}
use lsm_toolchain.RegAlloc.GraphColoring.{
  Node, active_degree, limit, find_low, find_max, remove_one, remove_all,
}
use lsm_toolchain.RegAlloc.GraphColoring.Names.{names}

-- how many nodes are not removed
unfoldable pub remaining : List String → List Node → ℕ
remaining removed [] = 0
remaining removed (n ∷ ns) =
    let rest = remaining removed ns in if mem n.var_name removed then rest else suc rest

pub record IsLeft (removed : List String) (g : List Node) (a : String) : Type 0 where
  pub node : In a (names g)
  pub kept : mem a removed ≡ false

IsLeft-tail :
    {removed : List String} {g : List Node} {a : String} (n : Node)
    → IsLeft removed g a
    → IsLeft removed (n ∷ g) a
IsLeft-tail n h = record { node = inr h.node; kept = h.kept }

remaining-fresh :
    (removed : List String) (a : String) (g : List Node)
    → ¬ (In a (names g))
    → remaining (a ∷ removed) g ≡ remaining removed g
unfolding remaining
remaining-fresh removed a [] m = refl
remaining-fresh removed a (n ∷ ns) m =
    let other : str_eq a n.var_name ≡ false = str_eq_ne a n.var_name (λ e. m (inl e)) in
    let rest = remaining-fresh removed a ns (λ k. m (inr k)) in rw (other, rest) refl

remaining-drop :
    (removed : List String) (a : String) (g : List Node)
    → IsLeft removed g a
    → Distinct (names g)
    → suc (remaining (a ∷ removed) g) ≡ remaining removed g
unfolding remaining
remaining-drop removed a [] h d = absurd h.node
remaining-drop removed a (n ∷ ns) h d = elim h.node [
  | inl e ↦
      let same : str_eq a n.var_name ≡ true = (eq_iff a n.var_name).1 e in
      let left : mem n.var_name removed ≡ false = ap (λ k. mem k removed) (sym e) ∙ h.kept in
      let fresh = remaining-fresh removed a ns (subst (λ k. ¬ (In k (names ns))) (sym e) d.0) in
      rw (same, left, fresh) refl
  | inr m ↦
      let other : str_eq a n.var_name ≡ false =
        str_eq_ne a n.var_name (λ e. d.0 (subst (λ k. In k (names ns)) e m)) in
      let rest = remaining-drop removed a ns (record { node = m; kept = h.kept }) d.1 in
      ground (arith, other, rest)
]

find_low-IsLeft :
    (arch : ArchType) (removed : List String) (g : List Node) (a : String)
    → find_low arch removed g ≡ some a
    → IsLeft removed g a
unfolding find_low
find_low-IsLeft arch removed [] a e = absurd cc
find_low-IsLeft arch removed (n ∷ ns) a e = elim (Bool-cases (mem n.var_name removed)) [
  | inl gone ↦ IsLeft-tail n (find_low-IsLeft arch removed ns a (rw gone at e))
  | inr left ↦ elim (Bool-cases (ltb (active_degree removed n.neighbors) (limit arch n))) [
    | inl low ↦
        let same : some n.var_name ≡ some a = rw (left, low) at e in
        let name : n.var_name ≡ a = cc in
        record { node = inl (sym name); kept = ap (λ k. mem k removed) (sym name) ∙ left }
    | inr high ↦ IsLeft-tail n (find_low-IsLeft arch removed ns a (rw (left, high) at e))
  ]
]

find_max-cases :
    (removed : List String) (name : String) (degree : ℕ) (g : List Node)
    → (find_max removed name degree g ≡ name) ⊎ IsLeft removed g (find_max removed name degree g)
unfolding find_max
find_max-cases removed name degree [] = inl refl
find_max-cases removed name degree (n ∷ ns) =
    let deg = active_degree removed n.neighbors in
    let skip : (find_max removed name degree ns ≡ name)
        ⊎ IsLeft removed (n ∷ ns) (find_max removed name degree ns) =
      elim (find_max-cases removed name degree ns) [
        | inl e ↦ inl e
        | inr h ↦ inr (IsLeft-tail n h)
      ] in
    elim (Bool-cases (mem n.var_name removed)) [
      | inl gone ↦ rw (gone, find_max) skip
      | inr left ↦ elim (Bool-cases (leb degree deg)) [
        | inr less ↦ rw (left, less, find_max) skip
        | inl more ↦
            rw (left, more, find_max)
              (inr (elim (find_max-cases removed n.var_name deg ns) [
                | inl e ↦ record { node = inl e; kept = ap (λ k. mem k removed) e ∙ left }
                | inr h ↦ IsLeft-tail n h
              ]))
      ]
    ]

find_max-IsLeft :
    (removed : List String) (name : String) (g : List Node)
    → 0 < remaining removed g
    → IsLeft removed g (find_max removed name 0 g)
unfolding find_max remaining
find_max-IsLeft removed name [] h = absurd (omega arith)
find_max-IsLeft removed name (n ∷ ns) h = elim (Bool-cases (mem n.var_name removed)) [
  | inl gone ↦ rw (gone, find_max) (IsLeft-tail n (find_max-IsLeft removed name ns (rw gone at h)))
  | inr left ↦
      let deg = active_degree removed n.neighbors in
      let more : leb 0 deg ≡ true = ground arith in
      rw (left, more, find_max)
        (elim (find_max-cases removed n.var_name deg ns) [
          | inl e ↦ record { node = inl e; kept = ap (λ k. mem k removed) e ∙ left }
          | inr k ↦ IsLeft-tail n k
        ])
]

module _ (arch : ArchType) (g : List Node) (distinct : Distinct (names g))
    (named : (a : String) → In a (names g) → a ≢ "") where
  -- a round removes one node
  remove_one-IsLeft :
      (removed : List String)
      → 0 < remaining removed g
      → (a : String) × (remove_one arch g removed ≡ a ∷ removed) × IsLeft removed g a
  unfolding remove_one
  remove_one-IsLeft removed some_left = elim (Option-cases (find_low arch removed g)) [
    | inr (a, e) ↦ (a, rw (e, remove_one) refl, find_low-IsLeft arch removed g a e)
    | inl none_ ↦
        let m = find_max removed "" 0 g in
        let h = find_max-IsLeft removed "" g some_left in
        let other : str_eq m "" ≡ false = str_eq_ne m "" (named m h.node) in
        (m, rw (none_, remove_one) (rw other refl), h)
  ]

  remaining-remove_all :
      (fuel : ℕ) (removed : List String)
      → length removed + remaining removed g ≡ length g
      → remaining removed g ≤ fuel
      → remaining (remove_all fuel arch g removed) g ≡ 0
  unfolding remove_all
  remaining-remove_all zero removed total enough = omega arith
  remaining-remove_all (suc fuel) removed total enough =
      elim (Bool-cases (ltb (length removed) (length g))) [
        | inr done ↦ rw (done, remove_all) (ground (arith, done, total))
        | inl more ↦
            let (a, step, left) = remove_one-IsLeft removed (ground (arith, more, total)) in
            let drop = remaining-drop removed a g left distinct in
            let next =
              remaining-remove_all fuel (a ∷ removed) (omega (arith, drop, total))
                (omega (arith, drop, enough)) in
            rw (more, remove_all) (ap (λ k. remaining (remove_all fuel arch g k) g) step ∙ next)
      ]

  remaining-none :
      (removed : List String) (ns : List Node) (a : String)
      → remaining removed ns ≡ 0
      → In a (names ns)
      → mem a removed ≡ true
  unfolding remaining
  remaining-none removed [] a z m = absurd m
  remaining-none removed (n ∷ ns) a z m = elim (Bool-cases (mem n.var_name removed)) [
    | inr left ↦ absurd (let s : suc (remaining removed ns) ≡ 0 = rw left at z in omega (arith, s))
    | inl gone ↦ elim m [
      | inl e ↦ ap (λ k. mem k removed) e ∙ gone
      | inr k ↦ remaining-none removed ns a (rw gone at z) k
    ]
  ]

  remaining_all : (ns : List Node) → remaining [] ns ≡ length ns
  unfolding remaining
  remaining_all [] = refl
  remaining_all (n ∷ ns) = ap suc (remaining_all ns)

  -- As many rounds as there are nodes remove them all.
  pub remove_all-In : (a : String) → In a (names g) → In a (remove_all (length g) arch g [])
  remove_all-In a m =
      let all = remaining_all g in
      let done = remaining-remove_all (length g) [] (omega (arith, all)) (omega (arith, all)) in
      (mem_iff a _).0 (remaining-none (remove_all (length g) arch g []) g a done m)
