-- ===== src/Core/Region/Returns.antt =====
-- src/core/Region.hpp: a client of `slabFree` gives a block back.
use lsm_toolchain.Prelude.{ℕ, ◌+◌, ◌≤◌, ◌<◌, ◌≡◌, ◌≢◌, sym, subst, inl, inr, some, List, ◌∷◌, In}
use lsm_toolchain.Core.Arena.{Arena}
use lsm_toolchain.Core.Arena.Bounds.{IsValid}
use lsm_toolchain.Core.Region.{Region, Links, slab_class_index, slab_free}
use lsm_toolchain.Core.Region.Slabs.{
  IsFresh, IsFresh-of_not-In, with_stack, index-lt-five, slab_free_pushes,
}
use lsm_toolchain.Core.Region.Blocks.{class_size, Block, IsSplit, push-cases}

-- When the client gives back a block that it holds, of a size in the block's class, and holds it no
-- more: the region's blocks are split as before, with this one among the free.
pub slab_free-IsSplit :
    {r : Region} {links : Links} {live rest stacks : ℕ → List ℕ} (ptr size i : ℕ)
    → IsSplit r links live stacks
    → slab_class_index size ≡ some i
    → ptr ≢ 0
    → In ptr (live i)
    → ((j y : ℕ) → In y (rest j) → In y (live j))
    → ((j : ℕ) → j < 5 → In ptr (rest j) → ⊥)
    → let (r', links') = slab_free r links ptr size in
      IsSplit r' links' rest (with_stack stacks i (ptr ∷ stacks i))
slab_free-IsSplit {r} {links} {live} {rest} {stacks} ptr size i h cls nz held sub gone =
    let lt = index-lt-five size i cls in
    let fresh : (j : ℕ) → j < 5 → IsFresh ptr (stacks j) =
      λ j jlt. IsFresh-of_not-In ptr (stacks j) (λ m. h.apart i j ptr lt jlt held m) in
    let (pushed, same) = slab_free_pushes h.holds ptr size i cls nz fresh in
    let old : (j y : ℕ)
        → Block rest (with_stack stacks i (ptr ∷ stacks i)) j y
        → Block live stacks j y =
      λ j y b. elim b [
        | inl m ↦ inl (sub j y m)
        | inr m ↦ elim (push-cases stacks i ptr j y m) [
          | inr k ↦ inr k
          | inl (e, e') ↦
              inl (subst (λ k. In y (live k)) (sym e) (subst (λ k. In k (live i)) (sym e') held))
        ]
      ] in
    record {
      holds = pushed;
      valid = subst IsValid (sym same) h.valid;
      inside = λ j y jlt b.
          subst (λ (a : Arena). y + class_size j ≤ a.buffer + a.offset) (sym same)
            (h.inside j y jlt (old j y b));
      disjoint = λ j k y z jlt klt b c. h.disjoint j k y z jlt klt (old j y b) (old k z c);
      apart = λ j k y jlt klt mj mk. elim (push-cases stacks i ptr k y mk) [
        | inr m ↦ h.apart j k y jlt klt (sub j y mj) m
        | inl (e, e') ↦ gone j jlt (subst (λ n. In n (rest j)) e' mj)
      ];
    }
