-- ===== src/RegAlloc/GraphColoring.antt =====
-- src/backend/regalloc/GraphColoring.hpp
-- A set of names is a list. The order in which the map of nodes is walked is the parameter `walk`.
-- `selectStack` and `removedNodes` grow together, so that both are one list, the top in front. A
-- node's colour is the entry of its name in the result's map, which is written with it. A spill
-- offset, zero or negative in the source, is its magnitude.
pub mod Colors
pub mod Graph
pub mod Names
pub mod Safe
pub mod Removal
pub mod Places
pub mod Complete
use lsm_toolchain.Prelude.{
  ℕ, zero, suc, ◌+◌, Bool, List, [], ◌∷◌, String, Option, none, some, not, mem, str_eq, entry, ltb,
  leb, if◌then◌else◌, length,
}
use lsm_toolchain.Ssa.{ArchType, StaticType}
use lsm_toolchain.RegAlloc.Interval.{LiveInterval, overlaps, is_float}
use lsm_toolchain.RegAlloc.LinearScan.{AllocationResult, has}

pub record Node : Type 0 where
  pub var_name : String
  pub type : StaticType
  pub neighbors : List String

-- `graph[name] = node`
unfoldable pub put_node : Node → List Node → List Node
put_node n [] = n ∷ []
put_node n (m ∷ ms) =
    let rest = put_node n ms in if str_eq m.var_name n.var_name then n ∷ ms else m ∷ rest

unfoldable pub put_nodes : List LiveInterval → List Node → List Node
unfolding put_node
put_nodes [] g = g
put_nodes (i ∷ is) g =
    put_nodes is (put_node (record { var_name = i.var_name; type = i.type; neighbors = [] }) g)

abbrev pub insert_name : String → List String → List String
insert_name a xs = if mem a xs then xs else a ∷ xs

-- `graph[a].neighbors.insert(b)`
unfoldable pub add_neighbor : String → String → List Node → List Node
add_neighbor a b [] = []
add_neighbor a b (n ∷ ns) =
    (if str_eq n.var_name a then record n { neighbors = insert_name b n.neighbors } else n)
    ∷ add_neighbor a b ns

unfoldable pub link : LiveInterval → LiveInterval → List Node → List Node
unfolding add_neighbor
link x y g =
    if overlaps x y
    then add_neighbor y.var_name x.var_name (add_neighbor x.var_name y.var_name g)
    else g

-- the inner loop over the intervals behind `x`
unfoldable pub link_with : LiveInterval → List LiveInterval → List Node → List Node
unfolding link
link_with x [] g = g
link_with x (y ∷ ys) g = link_with x ys (link x y g)

unfoldable pub link_all : List LiveInterval → List Node → List Node
unfolding link_with
link_all [] g = g
link_all (x ∷ xs) g = link_all xs (link_with x xs g)

unfoldable pub interference : List LiveInterval → List Node
unfolding put_nodes link_all
interference is = link_all is (put_nodes is [])

abbrev pub available_gprs : ArchType → List ℕ
available_gprs ArchType.x86_64 = 10 ∷ 11 ∷ 3 ∷ 12 ∷ 13 ∷ 14 ∷ 15 ∷ []
available_gprs _ = 9 ∷ 10 ∷ 11 ∷ 12 ∷ 13 ∷ 14 ∷ 15 ∷ 19 ∷ 20 ∷ 21 ∷ 22 ∷ 23 ∷ []

abbrev pub available_fprs : ArchType → List ℕ
available_fprs ArchType.x86_64 = 2 ∷ 3 ∷ 4 ∷ 5 ∷ 6 ∷ 7 ∷ 8 ∷ 9 ∷ 10 ∷ 11 ∷ 12 ∷ 13 ∷ 14 ∷ 15 ∷ []
available_fprs _ = 0 ∷ 1 ∷ 2 ∷ 3 ∷ 4 ∷ 5 ∷ 6 ∷ 7 ∷ 8 ∷ 9 ∷ 10 ∷ 11 ∷ 12 ∷ []

-- the neighbours that are not removed
unfoldable pub active_degree : List String → List String → ℕ
active_degree removed [] = 0
active_degree removed (b ∷ bs) =
    let rest = active_degree removed bs in if mem b removed then rest else suc rest

abbrev pub limit : ArchType → Node → ℕ
limit arch n =
    if is_float n.type then length (available_fprs arch) else length (available_gprs arch)

-- the first loop of a round: a node of a degree below the number of registers
unfoldable pub find_low : ArchType → List String → List Node → Option String
unfolding active_degree
find_low arch removed [] = none
find_low arch removed (n ∷ ns) =
    let rest = find_low arch removed ns in
    if mem n.var_name removed
    then rest
    else if ltb (active_degree removed n.neighbors) (limit arch n)
    then some n.var_name
    else rest

-- the second loop: the last node of the highest degree, with the name and degree found so far
unfoldable pub find_max : List String → String → ℕ → List Node → String
unfolding active_degree
find_max removed name degree [] = name
find_max removed name degree (n ∷ ns) =
    let deg = active_degree removed n.neighbors in
    let skip = find_max removed name degree ns in
    let take_it = find_max removed n.var_name deg ns in
    if mem n.var_name removed then skip else if leb degree deg then take_it else skip

unfoldable pub remove_one : ArchType → List Node → List String → List String
unfolding find_low find_max
remove_one arch g removed = elim (find_low arch removed g) [
  | some n ↦ n ∷ removed
  | none ↦ let m = find_max removed "" 0 g in if str_eq m "" then removed else m ∷ removed
]

-- The loop that removes all nodes, for at most `fuel` rounds.
unfoldable pub remove_all : ℕ → ArchType → List Node → List String → List String
unfolding remove_one
remove_all zero arch g removed = removed
remove_all (suc fuel) arch g removed =
    let rest = remove_all fuel arch g (remove_one arch g removed) in
    if ltb (length removed) (length g) then rest else removed

abbrev pub node_of : String → List Node → Node
node_of a [] = record { var_name = ""; type = StaticType.int64; neighbors = [] }
node_of a (n ∷ ns) = if str_eq n.var_name a then n else node_of a ns

unfoldable pub used_colors : List String → List (String × ℕ) → List ℕ
used_colors [] colors = []
used_colors (b ∷ bs) colors = elim (entry b colors) [
  | none ↦ used_colors bs colors
  | some c ↦ c ∷ used_colors bs colors
]

unfoldable pub first_free : List ℕ → List ℕ → Option ℕ
first_free used [] = none
first_free used (c ∷ cs) = let rest = first_free used cs in if has c used then rest else some c

-- `colorsPool`
abbrev pub colors_pool : ArchType → StaticType → List ℕ
colors_pool arch t = if is_float t then available_fprs arch else available_fprs arch

unfoldable pub color_one : ArchType → List Node → String → AllocationResult → AllocationResult
unfolding used_colors first_free
color_one arch g name r =
    let n = node_of name g in
    elim (first_free (used_colors n.neighbors r.var_to_reg) (colors_pool arch n.type)) [
      | some c ↦ record r { var_to_reg = (name, c) ∷ r.var_to_reg }
      | none ↦
          let o = r.total_stack_spill_bytes + 8 in
          record r { total_stack_spill_bytes = o; var_to_stack = (name, o) ∷ r.var_to_stack }
    ]

-- the loop that empties the stack
unfoldable pub color_all : ArchType → List Node → List String → AllocationResult → AllocationResult
unfolding color_one
color_all arch g [] r = r
color_all arch g (a ∷ as_) r = color_all arch g as_ (color_one arch g a r)

abbrev pub no_result : AllocationResult
no_result = record { var_to_reg = []; var_to_stack = []; total_stack_spill_bytes = 0 }

-- Each round removes a node, so as many rounds as there are nodes are enough.
unfoldable pub color_graph :
    (List Node → List Node) → ArchType → List LiveInterval → AllocationResult
unfolding interference remove_all color_all
color_graph walk arch is =
    let g = walk (interference is) in color_all arch g (remove_all (length g) arch g []) no_result
