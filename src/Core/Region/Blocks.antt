-- ===== src/Core/Region/Blocks.antt =====
-- src/core/Region.hpp: the blocks that a client of `slabAlloc` holds are apart.
use lsm_toolchain.Prelude.{
  ℕ, ◌+◌, ◌≤◌, ◌<◌, ◌≡◌, sym, subst, ◌⊎◌, inl, inr, List, ◌∷◌, In, get_or, ◌==◌, ==_iff, Bool-cases,
}
use lsm_toolchain.Core.Arena.{Arena}
use lsm_toolchain.Core.Arena.Bounds.{IsValid}
use lsm_toolchain.Core.Region.{Region, Links, slab_sizes}
use lsm_toolchain.Core.Region.Slabs.{Holds, with_stack}

abbrev pub class_size : ℕ → ℕ
class_size i = get_or slab_sizes i 0

-- a block of a class: one that the client holds, or one in the class's free list
abbrev pub Block : (ℕ → List ℕ) → (ℕ → List ℕ) → ℕ → ℕ → Type 0
Block live stacks i x = In x (live i) ⊎ In x (stacks i)

-- the blocks do not overlap
abbrev pub Disjoint : ℕ → ℕ → ℕ → ℕ → Type 0
Disjoint i x j y = (x + class_size i ≤ y) ⊎ (y + class_size j ≤ x)

-- All blocks end within the used part of the arena's buffer, two different ones do not overlap, and
-- none is held and free. The blocks are given by class.
pub record IsSplit (r : Region) (links : Links) (live stacks : ℕ → List ℕ) : Type 0 where
  pub holds : Holds r links stacks
  pub valid : IsValid r.arena
  pub inside :
      (i x : ℕ) → i < 5 → Block live stacks i x → x + class_size i ≤ r.arena.buffer + r.arena.offset
  pub disjoint :
      (i j x y : ℕ)
      → i < 5
      → j < 5
      → Block live stacks i x
      → Block live stacks j y
      → (i ≡ j) × (x ≡ y) ⊎ Disjoint i x j y
  pub apart : (i j x : ℕ) → i < 5 → j < 5 → In x (live i) → In x (stacks j) → ⊥

-- the blocks after one more
pub push-cases :
    (live : ℕ → List ℕ) (i p j y : ℕ)
    → In y (with_stack live i (p ∷ live i) j)
    → (j ≡ i) × (y ≡ p) ⊎ In y (live j)
push-cases live i p j y m = elim (Bool-cases (j == i)) [
  | inr other ↦ inr (rw other at m)
  | inl same ↦
      let e : j ≡ i = (==_iff j i).0 same in
      elim (rw same at m) [
        | inl new ↦ inl (e, new)
        | inr old ↦ inr (subst (λ k. In y (live k)) (sym e) old)
      ]
]
