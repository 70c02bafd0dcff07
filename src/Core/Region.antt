-- ===== src/Core/Region.antt =====
-- src/core/Region.hpp: nested regions over arenas, with free lists for five sizes of slabs.
-- A freed chunk holds the link to the next one, so the links are part of the state: `Links` is
-- the word at each address. A region stands before its ancestors in a list.
pub mod Slabs
pub mod Nesting
pub mod Blocks
pub mod Returns
use lsm_toolchain.Prelude.{
  ℕ, ◌+◌, ◌-◌, ◌≤◌, Bool, ◌&&◌, not, List, [], ◌∷◌, Option, none, some, ◌==◌, leb, if◌then◌else◌,
  get_or, set, replicate,
}
use lsm_toolchain.Core.Arena.{Arena, cache_line, owning, external, alloc, reset}

abbrev pub slab_classes_count : ℕ
slab_classes_count = 5

abbrev pub slab_sizes : List ℕ
slab_sizes = 32 ∷ 64 ∷ 128 ∷ 256 ∷ 512 ∷ []

pub record Region : Type 0 where
  pub arena : Arena
  pub scope_depth : ℕ
  pub free_lists : List ℕ

abbrev pub Links : Type 0
Links = ℕ → ℕ

-- the loop of `getSlabClassIndex` from index `i` on; `none` is its -1
unfoldable pub class_from : List ℕ → ℕ → ℕ → Option ℕ
class_from [] i size = none
class_from (s ∷ ss) i size = if leb size s then some i else class_from ss (i + 1) size

unfoldable pub slab_class_index : ℕ → Option ℕ
unfolding class_from
slab_class_index size = class_from slab_sizes 0 size

-- what `slabAlloc` does for a class index, and `alloc(allocSz, 8)` behind it
unfoldable pub slab_take : Region → Links → Option ℕ → ℕ → Option ℕ × Region
slab_take r links none size = let (p, a) = alloc r.arena size 8 in (p, record r { arena = a })
slab_take r links (some i) size =
    let head = get_or r.free_lists i 0 in
    let (p, a) = alloc r.arena (get_or slab_sizes i 0) 8 in
    if not (head == 0)
    then (some head, record r { free_lists = set r.free_lists i (links head) })
    else (p, record r { arena = a })

unfoldable pub slab_alloc : Region → Links → ℕ → Option ℕ × Region
unfolding slab_take
slab_alloc r links size = slab_take r links (slab_class_index size) size

unfoldable pub slab_put : Region → Links → ℕ → Option ℕ → Region × Links
slab_put r links ptr none = (r, links)
slab_put r links ptr (some i) =
    if not (ptr == 0)
    then (
      record r { free_lists = set r.free_lists i ptr },
      λ q. if q == ptr then get_or r.free_lists i 0 else links q,
    )
    else (r, links)

unfoldable pub slab_free : Region → Links → ℕ → ℕ → Region × Links
unfolding slab_put
slab_free r links ptr size = slab_put r links ptr (slab_class_index size)

unfoldable pub dispose : Region → Region
unfolding reset
dispose r = record r { arena = reset r.arena; free_lists = replicate slab_classes_count 0 }

-- both constructors, over the arena that they make
abbrev pub over : Arena → List Region → Region
over a [] = record { arena = a; scope_depth = 0; free_lists = replicate slab_classes_count 0 }
over a (p ∷ ps) = record {
  arena = a;
  scope_depth = p.scope_depth + 1;
  free_lists = replicate slab_classes_count 0;
}

-- `allocEscaped`: the block comes from the parent, if there is one.
unfoldable pub alloc_escaped : Region → List Region → ℕ → ℕ → Option ℕ × Region × List Region
alloc_escaped r [] size alignment =
    let (p, a) = alloc r.arena size alignment in (p, record r { arena = a }, [])
alloc_escaped r (parent ∷ ps) size alignment =
    let (p, a) = alloc parent.arena size alignment in (p, r, record parent { arena = a } ∷ ps)

-- what `createChild` makes of the two blocks that it asked the parent for
child_of : Option ℕ → Option ℕ → ℕ → ℕ → List Region → Region
child_of (some object) (some bytes) raw size ps = over (external bytes size) ps
child_of _ _ raw size ps = over (owning raw size) ps

-- `createChild`: the new region in front of its ancestors. `object_size` and `object_align` are
-- `sizeof(Region)` and `alignof(Region)`, and `raw` is what `malloc` returns where the child gets
-- a buffer of its own.
unfoldable pub create_child : List Region → ℕ → ℕ → ℕ → ℕ → List Region
unfolding child_of
create_child [] size object_size object_align raw = over (owning raw size) [] ∷ []
create_child (parent ∷ ps) size object_size object_align raw =
    let (object, a) = alloc parent.arena object_size object_align in
    let (bytes, b) = alloc a size cache_line in
    let ancestors = record parent { arena = b } ∷ ps in
    child_of object bytes raw size ancestors ∷ ancestors
