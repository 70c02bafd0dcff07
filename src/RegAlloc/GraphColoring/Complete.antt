-- ===== src/RegAlloc/GraphColoring/Complete.antt =====
-- src/backend/regalloc/GraphColoring.hpp: the allocator ends, and serves every variable.
use mathlib.Core.List.{Permᴰ}
use mathlib.Core.List.Permᴰ
use lsm_toolchain.Prelude.{
  ℕ, ◌≤◌, ◌%◌, some, entry, ◌≡◌, ◌≢◌, refl, ap, ◌∙◌, List, [], String, In, length,
}
use lsm_toolchain.Prelude.Perms.{In-Perm, Distinct-Perm}
use lsm_toolchain.Ssa.{ArchType}
use lsm_toolchain.RegAlloc.Interval.{LiveInterval}
use lsm_toolchain.RegAlloc.GraphColoring.{Node, no_result, color_graph, interference, remove_all}
use lsm_toolchain.RegAlloc.GraphColoring.Names.{
  names, names-interference, interference-names, Distinct-interference,
}
use lsm_toolchain.RegAlloc.GraphColoring.Removal.{remove_all-In}
use lsm_toolchain.RegAlloc.GraphColoring.Places.{
  HasPlace, HasPlace-color_all, IsLaidOut, IsLaidOut-color_all,
}

names-Perm : {g h : List Node} → Permᴰ g h → Permᴰ (names g) (names h)
names-Perm Permᴰ.nil = Permᴰ.nil
names-Perm (Permᴰ.cons e p) = Permᴰ.cons (ap (λ (n : Node). n.var_name) e) (names-Perm p)
names-Perm (Permᴰ.swap e f) =
    Permᴰ.swap (ap (λ (n : Node). n.var_name) e) (ap (λ (n : Node). n.var_name) f)
names-Perm (Permᴰ.trans p q) = Permᴰ.trans (names-Perm p) (names-Perm q)

module _ (walk : List Node → List Node) (permutes : (g : List Node) → Permᴰ (walk g) g) where
  -- Whatever the order in which the map of nodes is walked, as many rounds as there are nodes
  -- empty the graph, and every variable of the intervals has a register or a slot in the result,
  -- where no name is empty.
  pub every_placed :
      (arch : ArchType) (is : List LiveInterval) (x : LiveInterval)
      → In x is
      → ((i : LiveInterval) → In i is → i.var_name ≢ "")
      → HasPlace x.var_name (color_graph walk arch is)
  unfolding color_graph
  every_placed arch is x m named =
      let g = interference is in
      let p = names-Perm (permutes g) in
      let distinct = Distinct-Perm (Permᴰ.symm p) (Distinct-interference is) in
      let named' : (a : String) → In a (names (walk g)) → a ≢ "" = λ a in_.
        let (i, in_i, name) = interference-names is a (In-Perm a p in_) in
        λ e. named i in_i (name ∙ e) in
      let there = In-Perm x.var_name (Permᴰ.symm p) (names-interference is x m) in
      HasPlace-color_all arch (walk g) _ x.var_name no_result
        (remove_all-In arch (walk g) distinct named' x.var_name there)

slots-IsLaidOut :
    (walk : List Node → List Node) (arch : ArchType) (is : List LiveInterval)
    → IsLaidOut (color_graph walk arch is)
unfolding color_graph
slots-IsLaidOut walk arch is =
    let g = walk (interference is) in
    IsLaidOut-color_all arch g (remove_all (length g) arch g []) no_result
      (record { inside = λ a o e. absurd cc; apart = λ a b o p ne ea eb. absurd cc; whole = refl })

-- Two variables that get slots get different ones, at multiples of 8 from 8 up to the size of the
-- spill area, which is a multiple of 8 too.
pub slots_apart :
    (walk : List Node → List Node) (arch : ArchType) (is : List LiveInterval) (a b : String)
    (o p : ℕ)
    → a ≢ b
    → entry a (color_graph walk arch is).var_to_stack ≡ some o
    → entry b (color_graph walk arch is).var_to_stack ≡ some p
    → (o ≢ p)
      × (8 ≤ o)
      × (o ≤ (color_graph walk arch is).total_stack_spill_bytes)
      × (o % 8 ≡ 0)
      × ((color_graph walk arch is).total_stack_spill_bytes % 8 ≡ 0)
slots_apart walk arch is a b o p other ea eb =
    let h = slots-IsLaidOut walk arch is in
    let (low, high, slot) = h.inside a o ea in
    (h.apart a b o p other ea eb, low, high, slot, h.whole)
