-- ===== src/RegAlloc/GraphColoring/Colors.antt =====
-- src/backend/regalloc/GraphColoring.hpp: the loop that gives colours.
use lsm_toolchain.Prelude.{
  ℕ, ◌≡◌, ◌≢◌, refl, sym, ap, subst, ◌∙◌, inl, inr, List, [], ◌∷◌, String, some, true, false,
  ==_iff, str_eq, entry, In, Bool-cases, Option-cases, eq_iff, arith, entry-other,
}
use lsm_toolchain.Ssa.{ArchType}
use lsm_toolchain.RegAlloc.LinearScan.{AllocationResult, has}
use lsm_toolchain.RegAlloc.GraphColoring.{
  Node, node_of, used_colors, first_free, colors_pool, color_one, color_all,
}

has-used_colors :
    (bs : List String) (colors : List (String × ℕ)) (b : String) (d : ℕ)
    → In b bs
    → entry b colors ≡ some d
    → has d (used_colors bs colors) ≡ true
unfolding used_colors
has-used_colors [] colors b d m e = absurd m
has-used_colors (x ∷ xs) colors b d (inl same) e =
    let e' : entry x colors ≡ some d = ap (λ k. entry k colors) (sym same) ∙ e in
    rw (e', used_colors) (ground (arith, (==_iff d d).1 refl))
has-used_colors (x ∷ xs) colors b d (inr m) e =
    let rest = has-used_colors xs colors b d m e in
    elim (Option-cases (entry x colors)) [
      | inl none_ ↦ rw (none_, used_colors) rest
      | inr (c, some_) ↦ rw (some_, used_colors) (ground (arith, rest))
    ]

first_free-unused : (used cs : List ℕ) (c : ℕ) → first_free used cs ≡ some c → has c used ≡ false
unfolding first_free
first_free-unused used [] c e = absurd cc
first_free-unused used (x ∷ xs) c e = elim (Bool-cases (has x used)) [
  | inl taken ↦ first_free-unused used xs c (rw taken at e)
  | inr free ↦
      let same : some x ≡ some c = rw free at e in
      let same' : x ≡ c = cc in ap (λ k. has k used) (sym same') ∙ free
]

-- `R` relates names whose nodes are neighbours of each other.
module _ (arch : ArchType) (g : List Node) (R : String → String → Type 0)
    (flip : (a b : String) → R a b → R b a)
    (near : (a b : String) → R a b → In b (node_of a g).neighbors) where
  -- Related names have different colours.
  abbrev pub Proper : List (String × ℕ) → Type 0
  Proper colors =
      (a b : String) (c d : ℕ)
      → R a b
      → a ≢ b
      → entry a colors ≡ some c
      → entry b colors ≡ some d
      → c ≢ d

  new-differs :
      (a b : String) (c d : ℕ) (colors : List (String × ℕ))
      → R a b
      → first_free
          (used_colors (node_of a g).neighbors colors)
          (colors_pool arch (node_of a g).type)
        ≡ some c
      → entry b colors ≡ some d
      → c ≢ d
  new-differs a b c d colors r free e same =
      let ns = (node_of a g).neighbors in
      let unused = first_free-unused (used_colors ns colors) _ c free in
      let used = has-used_colors ns colors b d (near a b r) e in
      let t : has c (used_colors ns colors) ≡ true =
        ap (λ k. has k (used_colors ns colors)) same ∙ used in
      cc

  Proper-add :
      (n : String) (k : ℕ) (colors : List (String × ℕ))
      → first_free
          (used_colors (node_of n g).neighbors colors)
          (colors_pool arch (node_of n g).type)
        ≡ some k
      → Proper colors
      → Proper ((n, k) ∷ colors)
  Proper-add n k colors free h a b c d r other ea eb = elim (Bool-cases (str_eq n a)) [
    | inl here ↦
        let n_a : n ≡ a = (eq_iff n a).0 here in
        let k_c : some k ≡ some c = rw here at ea in
        let k_c' : k ≡ c = cc in
        let n_b : n ≢ b = λ e. other (sym n_a ∙ e) in
        let eb' : entry b colors ≡ some d = sym (entry-other n b k colors n_b) ∙ eb in
        λ same. new-differs n b k d colors (subst (λ x. R x b) (sym n_a) r) free eb' (k_c' ∙ same)
    | inr there ↦ elim (Bool-cases (str_eq n b)) [
      | inl here ↦
          let n_b : n ≡ b = (eq_iff n b).0 here in
          let k_d : some k ≡ some d = rw here at eb in
          let k_d' : k ≡ d = cc in
          let ea' : entry a colors ≡ some c = rw there at ea in
          λ same.
            new-differs n a k c colors (subst (λ x. R x a) (sym n_b) (flip a b r)) free ea'
              (k_d' ∙ sym same)
      | inr there' ↦ h a b c d r other (rw there at ea) (rw there' at eb)
    ]
  ]

  Proper-color_one :
      (n : String) (res : AllocationResult)
      → Proper res.var_to_reg
      → Proper (color_one arch g n res).var_to_reg
  unfolding color_one
  Proper-color_one n res h =
      elim (Option-cases (
        first_free (used_colors (node_of n g).neighbors res.var_to_reg)
          (colors_pool arch (node_of n g).type))) [
            | inl none_ ↦ rw (none_, color_one) h
            | inr (k, free) ↦ rw (free, color_one) (Proper-add n k res.var_to_reg free h)
          ]

  pub Proper-color_all :
      (ns : List String) (res : AllocationResult)
      → Proper res.var_to_reg
      → Proper (color_all arch g ns res).var_to_reg
  unfolding color_all
  Proper-color_all [] res h = h
  Proper-color_all (n ∷ ns) res h =
      Proper-color_all ns (color_one arch g n res) (Proper-color_one n res h)
