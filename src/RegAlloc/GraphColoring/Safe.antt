-- ===== src/RegAlloc/GraphColoring/Safe.antt =====
-- src/backend/regalloc/GraphColoring.hpp: registers that are shared.
use mathlib.Core.List.{Permᴰ}
use mathlib.Core.List.Permᴰ
use lsm_toolchain.Prelude.{ℕ, ◌≡◌, ◌≢◌, subst, List, [], String, some, true, entry, In, length}
use lsm_toolchain.Prelude.Perms.{In-Perm}
use lsm_toolchain.Ssa.{ArchType}
use lsm_toolchain.RegAlloc.Interval.{LiveInterval, overlaps}
use lsm_toolchain.RegAlloc.GraphColoring.{
  Node, put_nodes, interference, node_of, remove_all, color_graph,
}
use lsm_toolchain.RegAlloc.GraphColoring.Colors.{Proper-color_all}
use lsm_toolchain.RegAlloc.GraphColoring.Graph.{Linked, Linked-link_all}
use lsm_toolchain.RegAlloc.GraphColoring.Names.{
  names, names-interference, node_of-In, names-In, In-names,
}

module _ (walk : List Node → List Node) (permutes : (g : List Node) → Permᴰ (walk g) g) where
  -- linked, and both there
  Related : List Node → String → String → Type 0
  Related g a b = Linked a b g × In a (names (walk g)) × In b (names (walk g))

  Near-walk : (g : List Node) (a b : String) → Related g a b → In b (node_of a (walk g)).neighbors
  unfolding Related
  Near-walk g a b (l, in_a, in_b) =
      let (m, named) = node_of-In a (walk g) in_a in
      l.there.near (node_of a (walk g)) (In-Perm _ (permutes g) m) named

  Related-flip : (g : List Node) (a b : String) → Related g a b → Related g b a
  unfolding Related
  Related-flip g a b (l, in_a, in_b) = (record { there = l.back; back = l.there }, in_b, in_a)

  walk-names : (g : List Node) (a : String) → In a (names g) → In a (names (walk g))
  walk-names g a m =
      let (n, in_, name) = names-In a g m in
      subst (λ k. In k (names (walk g))) name
        (In-names n (walk g) (In-Perm n (Permᴰ.symm (permutes g)) in_))

  -- Two variables whose intervals overlap, and that both get a register, get different ones,
  -- whatever the order in which the map of nodes is walked.
  pub overlapping_differ :
      (arch : ArchType) (is : List LiveInterval) (x y : LiveInterval) (c d : ℕ)
      → In x is
      → In y is
      → x.var_name ≢ y.var_name
      → overlaps x y ≡ true
      → entry x.var_name (color_graph walk arch is).var_to_reg ≡ some c
      → entry y.var_name (color_graph walk arch is).var_to_reg ≡ some d
      → c ≢ d
  unfolding color_graph Related interference
  overlapping_differ arch is x y c d mx my other meet ex ey =
      let g = interference is in
      let related : Related g x.var_name y.var_name = (
        Linked-link_all x y is (put_nodes is []) mx my other meet,
        walk-names g x.var_name (names-interference is x mx),
        walk-names g y.var_name (names-interference is y my),
      ) in
      Proper-color_all arch (walk g) (Related g) (Related-flip g) (Near-walk g)
        (remove_all (length (walk g)) arch (walk g) []) _ (λ a b c d r o ea eb. absurd cc)
        x.var_name y.var_name c d related other ex ey
