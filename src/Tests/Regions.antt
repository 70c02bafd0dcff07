-- ===== src/Tests/Regions.antt =====
-- The region's theorems at small regions (src/core/Region.hpp).
use lsm_toolchain.Prelude.{
  ℕ, ◌⊎◌, inl, inr, In, ap, sym, ◌∙◌, ◌+◌, ◌%◌, ◌^◌, ◌≤◌, ◌≡◌, refl, true, some, List, [], ◌∷◌,
  arith,
}
use lsm_toolchain.Core.Utils.{align_up}
use lsm_toolchain.Core.Arena.{Arena, alloc, padding, cache_line}
use lsm_toolchain.Core.Arena.Bounds.{IsValid}
use lsm_toolchain.Core.Region.{
  Region, Links, over, dispose, slab_alloc, slab_free, slab_class_index, create_child,
  alloc_escaped,
}
use lsm_toolchain.Core.Region.Slabs.{
  Holds, IsFresh, ClassOf, with_stack, slab_class_index_least, slab_free_pushes, slab_alloc_pops,
}
use lsm_toolchain.Core.Region.Returns.{slab_free-IsSplit}
use lsm_toolchain.Core.Region.Blocks.{Block, IsSplit, class_size, push-cases}
use lsm_toolchain.Core.Region.Nesting.{dispose-Holds, create_child_nested, alloc_escaped_outlives}

abbrev buffer : Arena
buffer = record {
  raw_buffer = 0;
  buffer = 4096;
  capacity = 2048;
  offset = 0;
  is_external_buffer = true;
}

buffer-IsValid : IsValid buffer
buffer-IsValid = record { placed = omega arith; within = omega arith }

abbrev region : Region
region = over buffer []

abbrev no_links : Links
no_links = λ p. 0

abbrev empty_stacks : ℕ → List ℕ
empty_stacks i = []

empty-Holds : Holds region no_links empty_stacks
unfolding dispose
empty-Holds = (dispose-Holds region no_links).3

class-100 : slab_class_index 100 ≡ some 2
unfolding slab_class_index
class-100 = refl

-- a region whose third list holds the block at 5000
abbrev freed : Region × Links
freed = slab_free region no_links 5000 100

abbrev one_stack : ℕ → List ℕ
one_stack = with_stack empty_stacks 2 (5000 ∷ [])

freed-Holds : Holds freed.0 freed.1 one_stack
freed-Holds = (slab_free_pushes empty-Holds 5000 100 2 class-100 (omega arith) (λ j lt. tt)).0

slab_class_index_least_example : ClassOf 100 (slab_class_index 100)
slab_class_index_least_example = slab_class_index_least 100

slab_free_pushes_example : Holds freed.0 freed.1 one_stack × (freed.0.arena ≡ buffer)
slab_free_pushes_example =
    slab_free_pushes empty-Holds 5000 100 2 class-100 (omega arith) (λ j lt. tt)

slab_alloc_pops_example :
    let (p, r) = slab_alloc freed.0 freed.1 100 in
    (p ≡ some 5000)
    × (r.arena ≡ freed.0.arena)
    × Holds r freed.1 (with_stack one_stack 2 [])
    × IsFresh 5000 (with_stack one_stack 2 [] 2)
slab_alloc_pops_example = slab_alloc_pops freed-Holds 100 2 5000 [] 2 class-100 refl (omega arith)

-- two blocks of the third class, of which the client holds the first and has freed the second
abbrev two_blocks : Region
two_blocks = over (record buffer { offset = 256 }) []

two_blocks-Holds : Holds two_blocks no_links empty_stacks
unfolding dispose
two_blocks-Holds = record {
  five = refl;
  chain = empty-Holds.chain;
  distinct = empty-Holds.distinct;
  apart = empty-Holds.apart;
}

abbrev held_blocks : ℕ → List ℕ
held_blocks = with_stack empty_stacks 2 (4096 ∷ [])

abbrev free_blocks : ℕ → List ℕ
free_blocks = with_stack empty_stacks 2 (4224 ∷ [])

abbrev shared : Region × Links
shared = slab_free two_blocks no_links 4224 100

shared-pushed : Holds shared.0 shared.1 free_blocks × (shared.0.arena ≡ two_blocks.arena)
shared-pushed = slab_free_pushes two_blocks-Holds 4224 100 2 class-100 (omega arith) (λ j lt. tt)

only : (p j y : ℕ) → In y (with_stack empty_stacks 2 (p ∷ []) j) → (j ≡ 2) × (y ≡ p)
only p j y m = elim (push-cases empty_stacks 2 p j y m) [ inl e ↦ e | inr n ↦ absurd n ]

popped_or_new : (j y : ℕ) → Block held_blocks free_blocks j y → (j ≡ 2) × ((y ≡ 4096) ⊎ (y ≡ 4224))
popped_or_new j y b = elim b [
  | inl m ↦ let (e, e') = only 4096 j y m in (e, inl e')
  | inr m ↦ let (e, e') = only 4224 j y m in (e, inr e')
]

shared-IsSplit : IsSplit shared.0 shared.1 held_blocks free_blocks
unfolding slab_free slab_class_index
shared-IsSplit = record {
  holds = shared-pushed.0;
  valid = record { placed = omega arith; within = omega arith };
  inside = λ i x lt b.
      let (e, where_) = popped_or_new i x b in
      let s : class_size i ≡ 128 = ap class_size e in
      elim where_ [ inl k ↦ omega (arith, s, k) | inr k ↦ omega (arith, s, k) ];
  disjoint = λ i j x y ilt jlt b c.
      let (e, at_x) = popped_or_new i x b in
      let (d, at_y) = popped_or_new j y c in
      let s : class_size i ≡ 128 = ap class_size e in
      let t : class_size j ≡ 128 = ap class_size d in
      elim at_x [
        | inl k ↦ elim at_y [
          | inl l ↦ inl (e ∙ sym d, k ∙ sym l)
          | inr l ↦ inr (inl (omega (arith, s, k, l)))
        ]
        | inr k ↦ elim at_y [
          | inl l ↦ inr (inr (omega (arith, t, k, l)))
          | inr l ↦ inl (e ∙ sym d, k ∙ sym l)
        ]
      ];
  apart = λ i j x ilt jlt m n. omega (arith, (only 4096 i x m).1, (only 4224 j x n).1);
}

-- Both blocks given back: the client holds none, and the region's blocks are still apart.
returned :
    IsSplit
      (slab_free shared.0 shared.1 4096 100).0
      (slab_free shared.0 shared.1 4096 100).1
      empty_stacks
      (with_stack free_blocks 2 (4096 ∷ free_blocks 2))
returned =
    slab_free-IsSplit 4096 100 2 shared-IsSplit class-100 (omega arith) (inl refl)
      (λ j y m. absurd m) (λ j lt m. m)

dispose-Holds_example :
    ((dispose freed.0).arena.offset ≡ 0)
    × ((dispose freed.0).arena.buffer ≡ freed.0.arena.buffer)
    × ((dispose freed.0).arena.capacity ≡ freed.0.arena.capacity)
    × Holds (dispose freed.0) no_links empty_stacks
dispose-Holds_example = dispose-Holds freed.0 no_links

first_block : (alloc buffer 120 (2 ^ 3)).0 ≡ some 4096
unfolding alloc padding align_up
first_block = refl

second_block : (alloc (alloc buffer 120 (2 ^ 3)).1 512 cache_line).0 ≡ some 4224
unfolding alloc padding align_up
second_block = refl

create_child_example :
    (c parent' : Region) × (create_child (region ∷ []) 512 120 (2 ^ 3) 0 ≡ c ∷ parent' ∷ [])
    × (c.scope_depth ≡ 0 + 1)
    × (c.arena.buffer % 64 ≡ 0)
    × (4096 + 0 ≤ 4096)
    × (4096 + 120 ≤ c.arena.buffer)
    × (c.arena.buffer + c.arena.capacity ≡ parent'.arena.buffer + parent'.arena.offset)
    × IsValid parent'.arena
    × IsValid c.arena
create_child_example =
    create_child_nested region [] buffer-IsValid 512 120 3 0 4096 4224 (omega arith, omega arith)
      (omega arith, omega arith) first_block second_block

escaped_block : (alloc_escaped region (region ∷ []) 120 (2 ^ 3)).0 ≡ some 4096
unfolding alloc_escaped alloc padding align_up
escaped_block = refl

alloc_escaped_example :
    let (_, r, ancestors) = alloc_escaped region (region ∷ []) 120 (2 ^ 3) in
    (r ≡ region)
    × (parent' : Region) × (ancestors ≡ parent' ∷ [])
    × (4096 + 0 ≤ 4096)
    × (4096 + 120 ≡ parent'.arena.buffer + parent'.arena.offset)
    × IsValid parent'.arena
alloc_escaped_example =
    alloc_escaped_outlives region [] buffer-IsValid region 120 3 4096 (omega arith, omega arith)
      escaped_block
