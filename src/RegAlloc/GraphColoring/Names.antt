-- ===== src/RegAlloc/GraphColoring/Names.antt =====
-- src/backend/regalloc/GraphColoring.hpp: the names of the nodes.
use lsm_toolchain.Prelude.{
  ◌≡◌, refl, sym, ap, subst, ◌∙◌, ◌⊎◌, inl, inr, List, [], ◌∷◌, String, true, str_eq, In, Distinct,
  Bool-cases, eq_iff,
}
use lsm_toolchain.RegAlloc.Interval.{LiveInterval, overlaps}
use lsm_toolchain.RegAlloc.GraphColoring.{
  Node, put_node, put_nodes, add_neighbor, link, link_with, link_all, interference, node_of,
}

abbrev pub names : List Node → List String
names [] = []
names (n ∷ ns) = n.var_name ∷ names ns

names-add_neighbor : (a b : String) (g : List Node) → names (add_neighbor a b g) ≡ names g
unfolding add_neighbor
names-add_neighbor a b [] = refl
names-add_neighbor a b (n ∷ ns) = elim (Bool-cases (str_eq n.var_name a)) [
  | inl here ↦ rw here (ap (λ k. n.var_name ∷ k) (names-add_neighbor a b ns))
  | inr there ↦ rw there (ap (λ k. n.var_name ∷ k) (names-add_neighbor a b ns))
]

names-link : (x y : LiveInterval) (g : List Node) → names (link x y g) ≡ names g
unfolding link
names-link x y g = elim (Bool-cases (overlaps x y)) [
  | inr apart ↦ rw (apart, link) refl
  | inl meet ↦ rw (meet, link) (names-add_neighbor _ _ _ ∙ names-add_neighbor _ _ g)
]

names-link_with :
    (x : LiveInterval) (ys : List LiveInterval) (g : List Node) → names (link_with x ys g) ≡ names g
unfolding link_with
names-link_with x [] g = refl
names-link_with x (y ∷ ys) g = names-link_with x ys (link x y g) ∙ names-link x y g

names-link_all : (xs : List LiveInterval) (g : List Node) → names (link_all xs g) ≡ names g
unfolding link_all
names-link_all [] g = refl
names-link_all (x ∷ xs) g = names-link_all xs (link_with x xs g) ∙ names-link_with x xs g

names-put_node :
    (n : Node) (g : List Node) (a : String) → In a (names g) → In a (names (put_node n g))
unfolding put_node
names-put_node n [] a m = absurd m
names-put_node n (x ∷ xs) a m = elim (Bool-cases (str_eq x.var_name n.var_name)) [
  | inl same ↦ rw same (subst (λ k. In a (k ∷ names xs)) ((eq_iff x.var_name n.var_name).0 same) m)
  | inr other ↦ rw other (elim m [ inl e ↦ inl e | inr k ↦ inr (names-put_node n xs a k) ])
]

names_put_node : (n : Node) (g : List Node) → In n.var_name (names (put_node n g))
unfolding put_node
names_put_node n [] = inl refl
names_put_node n (x ∷ xs) = elim (Bool-cases (str_eq x.var_name n.var_name)) [
  | inl same ↦ rw same (inl refl)
  | inr other ↦ rw other (inr (names_put_node n xs))
]

-- no other names than these
put_node-names :
    (n : Node) (g : List Node) (a : String)
    → In a (names (put_node n g))
    → (a ≡ n.var_name) ⊎ In a (names g)
unfolding put_node
put_node-names n [] a (inl e) = inl e
put_node-names n [] a (inr m) = absurd m
put_node-names n (x ∷ xs) a m = elim (Bool-cases (str_eq x.var_name n.var_name)) [
  | inl same ↦ elim (rw same at m) [ inl e ↦ inl e | inr k ↦ inr (inr k) ]
  | inr other ↦ elim (rw other at m) [
    | inl e ↦ inr (inl e)
    | inr k ↦ elim (put_node-names n xs a k) [ inl e ↦ inl e | inr r ↦ inr (inr r) ]
  ]
]

Distinct-put_node :
    (n : Node) (g : List Node) → Distinct (names g) → Distinct (names (put_node n g))
unfolding put_node
Distinct-put_node n [] d = (λ m. m, tt)
Distinct-put_node n (x ∷ xs) d = elim (Bool-cases (str_eq x.var_name n.var_name)) [
  | inl same ↦
      rw same (subst (λ k. Distinct (k ∷ names xs)) ((eq_iff x.var_name n.var_name).0 same) d)
  | inr other ↦ rw other (
    λ m. elim (put_node-names n xs x.var_name m) [
      | inl e ↦
          absurd
            (let t : str_eq x.var_name n.var_name ≡ true = (eq_iff x.var_name n.var_name).1 e in cc)
      | inr k ↦ d.0 k
    ],
    Distinct-put_node n xs d.1,
  )
]

names-put_nodes :
    (is : List LiveInterval) (g : List Node) (a : String)
    → In a (names g)
    → In a (names (put_nodes is g))
unfolding put_nodes
names-put_nodes [] g a m = m
names-put_nodes (i ∷ is) g a m = names-put_nodes is _ a (names-put_node _ g a m)

names_put_nodes :
    (is : List LiveInterval) (g : List Node) (x : LiveInterval)
    → In x is
    → In x.var_name (names (put_nodes is g))
unfolding put_nodes
names_put_nodes [] g x m = absurd m
names_put_nodes (i ∷ is) g x (inl e) = names-put_nodes is _ x.var_name (
    subst
      (λ (k : LiveInterval).
        In k.var_name
          (names (put_node (record { var_name = i.var_name; type = i.type; neighbors = [] }) g)))
      (sym e) (names_put_node _ g))
names_put_nodes (i ∷ is) g x (inr m) = names_put_nodes is _ x m

Distinct-put_nodes :
    (is : List LiveInterval) (g : List Node)
    → Distinct (names g)
    → Distinct (names (put_nodes is g))
unfolding put_nodes
Distinct-put_nodes [] g d = d
Distinct-put_nodes (i ∷ is) g d = Distinct-put_nodes is _ (Distinct-put_node _ g d)

pub names-interference :
    (is : List LiveInterval) (x : LiveInterval) → In x is → In x.var_name (names (interference is))
unfolding interference
names-interference is x m =
    subst (In x.var_name) (sym (names-link_all is (put_nodes is []))) (names_put_nodes is [] x m)

pub Distinct-interference : (is : List LiveInterval) → Distinct (names (interference is))
unfolding interference
Distinct-interference is =
    subst Distinct (sym (names-link_all is (put_nodes is []))) (Distinct-put_nodes is [] tt)

pub node_of-In :
    (a : String) (g : List Node)
    → In a (names g)
    → In (node_of a g) g × ((node_of a g).var_name ≡ a)
node_of-In a [] m = absurd m
node_of-In a (n ∷ ns) m = elim (Bool-cases (str_eq n.var_name a)) [
  | inl here ↦ rw here (inl refl, (eq_iff n.var_name a).0 here)
  | inr there ↦ elim m [
    | inl e ↦ absurd (let t : str_eq n.var_name a ≡ true = (eq_iff n.var_name a).1 (sym e) in cc)
    | inr k ↦
        let (in_, name) = node_of-In a ns k in
        let e : node_of a (n ∷ ns) ≡ node_of a ns = rw there refl in
        subst (λ (x : Node). In x (n ∷ ns) × (x.var_name ≡ a)) (sym e) (inr in_, name)
  ]
]

pub In-names : (n : Node) (g : List Node) → In n g → In n.var_name (names g)
In-names n [] m = absurd m
In-names n (x ∷ xs) (inl e) = inl (ap (λ (k : Node). k.var_name) e)
In-names n (x ∷ xs) (inr m) = inr (In-names n xs m)

pub names-In :
    (a : String) (g : List Node) → In a (names g) → (n : Node) × In n g × (n.var_name ≡ a)
names-In a [] m = absurd m
names-In a (x ∷ xs) (inl e) = (x, inl refl, sym e)
names-In a (x ∷ xs) (inr m) = let (n, in_, name) = names-In a xs m in (n, inr in_, name)

put_nodes-names :
    (is : List LiveInterval) (g : List Node) (a : String)
    → In a (names (put_nodes is g))
    → In a (names g) ⊎ ((i : LiveInterval) × In i is × (i.var_name ≡ a))
unfolding put_nodes
put_nodes-names [] g a m = inl m
put_nodes-names (i ∷ is) g a m = elim (put_nodes-names is _ a m) [
  | inr (k, in_, name) ↦ inr (k, inr in_, name)
  | inl n ↦ elim (put_node-names _ g a n) [ inl e ↦ inr (i, inl refl, sym e) | inr r ↦ inl r ]
]

-- only the intervals give names
pub interference-names :
    (is : List LiveInterval) (a : String)
    → In a (names (interference is))
    → (i : LiveInterval) × In i is × (i.var_name ≡ a)
unfolding interference
interference-names is a m =
    elim (put_nodes-names is [] a (subst (In a) (names-link_all is (put_nodes is [])) m)) [
      | inl n ↦ absurd n
      | inr r ↦ r
    ]
