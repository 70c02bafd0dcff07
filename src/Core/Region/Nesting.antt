-- ===== src/Core/Region/Nesting.antt =====
-- src/core/Region.hpp: children, escaping blocks and disposal.
use lsm_toolchain.Prelude.{
  ℕ, zero, suc, get_or, replicate, ◌+◌, ◌%◌, ◌^◌, ◌≤◌, ◌≡◌, refl, ap, some, List, [], ◌∷◌, arith,
}
use lsm_toolchain.Core.Arena.{alloc, external, cache_line}
use lsm_toolchain.Core.Arena.Bounds.{IsValid, Fits, alloc_block}
use lsm_toolchain.Core.Region.{Region, Links, over, create_child, alloc_escaped, dispose}
use lsm_toolchain.Core.Region.Slabs.{Holds}

zeros : (i : ℕ) → get_or {A = ℕ} (replicate 5 0) i 0 ≡ 0
zeros zero = refl
zeros (suc zero) = refl
zeros (suc (suc zero)) = refl
zeros (suc (suc (suc zero))) = refl
zeros (suc (suc (suc (suc zero)))) = refl
zeros (suc (suc (suc (suc (suc i))))) = refl

-- A disposed region hands out its buffer from the start again and has no free slab, whatever the
-- words in its chunks are.
pub dispose-Holds :
    (r : Region) (links : Links)
    → ((dispose r).arena.offset ≡ 0)
      × ((dispose r).arena.buffer ≡ r.arena.buffer)
      × ((dispose r).arena.capacity ≡ r.arena.capacity)
      × Holds (dispose r) links (λ _. [])
unfolding dispose
dispose-Holds r links = (
  refl,
  refl,
  refl,
  record {
    five = refl;
    chain = λ i lt. zeros i;
    distinct = λ i lt. tt;
    apart = λ i j x ilt jlt m n. absurd m;
  },
)

module _ (parent : Region) (ps : List Region) (v : IsValid parent.arena) where
  -- What an escaping block leaves alone: the region itself. The block comes from the free part of
  -- the parent, so it outlives the region's buffer.
  pub alloc_escaped_outlives :
      (r : Region) (size k p : ℕ)
      → Fits parent.arena size k
      → (alloc_escaped r (parent ∷ ps) size (2 ^ k)).0 ≡ some p
      → let (_, r', ancestors) = alloc_escaped r (parent ∷ ps) size (2 ^ k) in
        (r' ≡ r)
        × (parent' : Region) × (ancestors ≡ parent' ∷ ps)
        × (parent.arena.buffer + parent.arena.offset ≤ p)
        × (p + size ≡ parent'.arena.buffer + parent'.arena.offset)
        × IsValid parent'.arena
  unfolding alloc_escaped
  alloc_escaped_outlives r size k p f e =
      let a' = (alloc parent.arena size (2 ^ k)).1 in
      let b = alloc_block v size k f p a' (ap (λ o. (o, a')) e) in
      (refl, record parent { arena = a' }, refl, b.1, b.2, b.5)

  -- A child whose two blocks the parent can give stands one scope deeper than the parent. Its
  -- buffer starts on a cache line and lies behind the child's object in the part of the parent's
  -- buffer that the call takes, and both arenas are valid afterwards.
  pub create_child_nested :
      (size object_size k raw object bytes : ℕ)
      → Fits parent.arena object_size k
      → Fits parent.arena size 6
      → (alloc parent.arena object_size (2 ^ k)).0 ≡ some object
      → (alloc (alloc parent.arena object_size (2 ^ k)).1 size cache_line).0 ≡ some bytes
      → (c parent' : Region) × (create_child (parent ∷ ps) size object_size (2 ^ k) raw
          ≡ c ∷ parent' ∷ ps)
        × (c.scope_depth ≡ parent.scope_depth + 1)
        × (c.arena.buffer % 64 ≡ 0)
        × (parent.arena.buffer + parent.arena.offset ≤ object)
        × (object + object_size ≤ c.arena.buffer)
        × (c.arena.buffer + c.arena.capacity ≡ parent'.arena.buffer + parent'.arena.offset)
        × IsValid parent'.arena
        × IsValid c.arena
  unfolding create_child external
  create_child_nested size object_size k raw object bytes f g eo eb =
      let a = (alloc parent.arena object_size (2 ^ k)).1 in
      let b = (alloc a size cache_line).1 in
      let bo = alloc_block v object_size k f object a (ap (λ o. (o, a)) eo) in
      let g' : Fits a size 6 = omega (arith, bo, g.0, g.1) in
      let bb = alloc_block bo.5 size 6 g' bytes b (ap (λ o. (o, b)) eb) in
      let parent' = record parent { arena = b } in
      (
        over (external bytes size) (parent' ∷ ps),
        parent',
        rw (eo, eb),
        refl,
        bb.0,
        bo.1,
        omega (arith, bo, bb.1),
        bb.2,
        bb.5,
        record { placed = omega (arith, bb.2, bb.5); within = omega arith },
      )
