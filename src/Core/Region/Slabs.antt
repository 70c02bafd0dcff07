-- ===== src/Core/Region/Slabs.antt =====
-- src/core/Region.hpp: the free lists are stacks of distinct blocks.
use lsm_toolchain.Prelude.{
  ℕ, zero, suc, ◌≤◌, ◌<◌, ◌≡◌, ◌≢◌, refl, sym, subst, false, Bool-cases, ==_iff, ◌⊎◌, inl, inr,
  Option, none, some, List, [], ◌∷◌, In, length, get_or, set, length-set, ◌==◌, if◌then◌else◌,
  arith,
}
use lsm_toolchain.Core.Arena.{alloc}
use lsm_toolchain.Core.Region.{
  Region, Links, slab_sizes, slab_class_index, slab_take, slab_alloc, slab_put, slab_free,
}

-- What a class says of the request: it is the smallest class that holds it, and without a class
-- the request is larger than every slab.
abbrev pub ClassOf : ℕ → Option ℕ → Type 0
ClassOf size none = 512 < size
ClassOf size (some zero) = size ≤ 32
ClassOf size (some (suc i)) =
    (suc i < 5) × (size ≤ get_or slab_sizes (suc i) 0) × (get_or slab_sizes i 0 < size)

-- `getSlabClassIndex` finds the smallest class that holds the request, and none exactly for the
-- requests above 512 bytes.
pub slab_class_index_least : (size : ℕ) → ClassOf size (slab_class_index size)
unfolding slab_class_index
slab_class_index_least size = ground arith

-- From a head, the links run through the blocks of the stack, none of them null, to null.
abbrev pub IsChain : Links → ℕ → List ℕ → Type 0
IsChain links head [] = head ≡ 0
IsChain links head (x ∷ xs) = (head ≡ x) × (x ≢ 0) × IsChain links (links x) xs

abbrev pub IsFresh : ℕ → List ℕ → Type 0
IsFresh p [] = Unit
IsFresh p (x ∷ xs) = (x ≢ p) × IsFresh p xs

-- No block stands twice.
abbrev pub DistinctBlocks : List ℕ → Type 0
DistinctBlocks [] = Unit
DistinctBlocks (x ∷ xs) = IsFresh x xs × DistinctBlocks xs

-- The five heads begin chains of distinct blocks, and no block is in two of them. The stacks are
-- given by class.
pub record Holds (r : Region) (links : Links) (stacks : ℕ → List ℕ) : Type 0 where
  pub five : length r.free_lists ≡ 5
  pub chain : (i : ℕ) → i < 5 → IsChain links (get_or r.free_lists i 0) (stacks i)
  pub distinct : (i : ℕ) → i < 5 → DistinctBlocks (stacks i)
  pub apart : (i j x : ℕ) → i < 5 → j < 5 → In x (stacks i) → In x (stacks j) → i ≡ j

-- one stack replaced
abbrev pub with_stack : (ℕ → List ℕ) → ℕ → List ℕ → ℕ → List ℕ
with_stack stacks i xs j = if j == i then xs else stacks j

pub IsFresh-In : (p : ℕ) (xs : List ℕ) → IsFresh p xs → In p xs → ⊥
IsFresh-In p [] f m = absurd m
IsFresh-In p (x ∷ xs) f (inl e) = f.0 (sym e)
IsFresh-In p (x ∷ xs) f (inr m) = IsFresh-In p xs f.1 m

pub IsFresh-of_not-In : (p : ℕ) (xs : List ℕ) → (In p xs → ⊥) → IsFresh p xs
IsFresh-of_not-In p [] f = tt
IsFresh-of_not-In p (x ∷ xs) f = (λ e. f (inl (sym e)), IsFresh-of_not-In p xs (λ m. f (inr m)))

neq-==-false : (a b : ℕ) → a ≢ b → (a == b) ≡ false
neq-==-false a b h = ground arith

-- A write to a block outside a chain leaves the chain.
IsChain-write :
    (links : Links) (p v head : ℕ) (xs : List ℕ)
    → IsFresh p xs
    → IsChain links head xs
    → IsChain (λ q. if q == p then v else links q) head xs
IsChain-write links p v head [] f c = c
IsChain-write links p v head (x ∷ xs) f c =
    (c.0, c.1, rw (neq-==-false x p f.0) (IsChain-write links p v (links x) xs f.1 c.2))

get_or-set :
    (xs : List ℕ) (i j v : ℕ)
    → i < length xs
    → get_or (set xs i v) j 0 ≡ (if j == i then v else get_or xs j 0)
get_or-set [] i j v h = absurd (omega arith)
get_or-set (x ∷ xs) zero zero v h = refl
get_or-set (x ∷ xs) zero (suc j) v h = ground arith
get_or-set (x ∷ xs) (suc i) zero v h = ground arith
get_or-set (x ∷ xs) (suc i) (suc j) v h = ground (arith, get_or-set xs i j v (omega arith))

pub index-lt-five : (size i : ℕ) → slab_class_index size ≡ some i → i < 5
index-lt-five size zero e = omega arith
index-lt-five size (suc i) e = (subst (ClassOf size) e (slab_class_index_least size)).0

module _ {r : Region} {links : Links} {stacks : ℕ → List ℕ} (h : Holds r links stacks) where
  module _ (ptr i : ℕ) (lt : i < 5) (nz : ptr ≢ 0)
      (fresh : (j : ℕ) → j < 5 → IsFresh ptr (stacks j)) where
    put-IsChain :
        (j : ℕ)
        → j < 5
        → IsChain
            (λ q. if q == ptr then get_or r.free_lists i 0 else links q)
            (get_or (set r.free_lists i ptr) j 0)
            (with_stack stacks i (ptr ∷ stacks i) j)
    put-IsChain j jlt =
        let kept = λ (k : ℕ) (klt : k < 5).
          IsChain-write links ptr (get_or r.free_lists i 0) (get_or r.free_lists k 0) (stacks k)
            (fresh k klt) (h.chain k klt) in
        rw (get_or-set r.free_lists i j ptr (omega (arith, h.five))) (elim (Bool-cases (j == i)) [
          | inl e ↦ rw e (refl, nz, rw ((==_iff ptr ptr).1 refl) (kept i lt))
          | inr e ↦ rw e (kept j jlt)
        ])

    put-DistinctBlocks : (j : ℕ) → j < 5 → DistinctBlocks (with_stack stacks i (ptr ∷ stacks i) j)
    put-DistinctBlocks j jlt = elim (Bool-cases (j == i)) [
      | inl e ↦ rw e (fresh i lt, h.distinct i lt)
      | inr e ↦ rw e (h.distinct j jlt)
    ]

    put_owner :
        (x j : ℕ)
        → In x (with_stack stacks i (ptr ∷ stacks i) j)
        → (x ≡ ptr) × (j ≡ i) ⊎ In x (stacks j)
    put_owner x j m = elim (Bool-cases (j == i)) [
      | inl e ↦
          let j_eq = (==_iff j i).0 e in
          elim (rw e at m) [
            | inl new ↦ inl (new, j_eq)
            | inr old ↦ inr (subst (λ k. In x (stacks k)) (sym j_eq) old)
          ]
      | inr e ↦ inr (rw e at m)
    ]

    put_apart :
        (j k x : ℕ)
        → j < 5
        → k < 5
        → In x (with_stack stacks i (ptr ∷ stacks i) j)
        → In x (with_stack stacks i (ptr ∷ stacks i) k)
        → j ≡ k
    put_apart j k x jlt klt mj mk = elim (put_owner x j mj) [
      | inl (new, e) ↦ elim (put_owner x k mk) [
        | inl (new', e') ↦ omega arith
        | inr old ↦ absurd (IsFresh-In ptr (stacks k) (fresh k klt) (rw new at old))
      ]
      | inr old ↦ elim (put_owner x k mk) [
        | inl (new, e) ↦ absurd (IsFresh-In ptr (stacks j) (fresh j jlt) (rw new at old))
        | inr old' ↦ h.apart j k x jlt klt old old'
      ]
    ]

    put-Holds :
        Holds
          (slab_put r links ptr (some i)).0
          (slab_put r links ptr (some i)).1
          (with_stack stacks i (ptr ∷ stacks i))
        × ((slab_put r links ptr (some i)).0.arena ≡ r.arena)
    unfolding slab_put
    put-Holds = rw (neq-==-false ptr 0 nz) (
      record {
        five = rw length-set h.five;
        chain = put-IsChain;
        distinct = put-DistinctBlocks;
        apart = put_apart;
      },
      refl,
    )

  -- Freeing a block that is in no list pushes it onto the stack of its class.
  pub slab_free_pushes :
      (ptr size i : ℕ)
      → slab_class_index size ≡ some i
      → ptr ≢ 0
      → ((j : ℕ) → j < 5 → IsFresh ptr (stacks j))
      → let (r', links') = slab_free r links ptr size in
        Holds r' links' (with_stack stacks i (ptr ∷ stacks i)) × (r'.arena ≡ r.arena)
  unfolding slab_free
  slab_free_pushes ptr size i cls nz fresh =
      rw cls (put-Holds ptr i (index-lt-five size i cls) nz fresh)

  module _ (i x : ℕ) (xs : List ℕ) (lt : i < 5) (top : stacks i ≡ x ∷ xs) where
    -- what the chain and the stack say of the top
    top-IsChain : IsChain links (get_or r.free_lists i 0) (x ∷ xs)
    top-IsChain = rw top at (h.chain i lt)

    top-DistinctBlocks : DistinctBlocks (x ∷ xs)
    top-DistinctBlocks = rw top at (h.distinct i lt)

    take-IsChain :
        (j : ℕ)
        → j < 5
        → IsChain links (get_or (set r.free_lists i (links x)) j 0) (with_stack stacks i xs j)
    take-IsChain j jlt =
        rw (get_or-set r.free_lists i j (links x) (omega (arith, h.five)))
          (elim (Bool-cases (j == i)) [ inl e ↦ rw e top-IsChain.2 | inr e ↦ rw e (h.chain j jlt) ])

    take-DistinctBlocks : (j : ℕ) → j < 5 → DistinctBlocks (with_stack stacks i xs j)
    take-DistinctBlocks j jlt = elim (Bool-cases (j == i)) [
      | inl e ↦ rw e top-DistinctBlocks.1
      | inr e ↦ rw e (h.distinct j jlt)
    ]

    take_owner : (y j : ℕ) → In y (with_stack stacks i xs j) → In y (stacks j)
    take_owner y j m = elim (Bool-cases (j == i)) [
      | inl e ↦ subst (λ k. In y (stacks k)) (sym ((==_iff j i).0 e)) (rw top (inr (rw e at m)))
      | inr e ↦ rw e at m
    ]

    take-IsFresh : (j : ℕ) → j < 5 → IsFresh x (with_stack stacks i xs j)
    take-IsFresh j jlt = elim (Bool-cases (j == i)) [
      | inl e ↦ rw e top-DistinctBlocks.0
      | inr e ↦ rw e (
          IsFresh-of_not-In x (stacks j)
            λ m. cc ((==_iff j i).1 (h.apart j i x jlt lt m (rw top (inl refl)))))
    ]

    take-Holds :
        (size j : ℕ)
        → j < 5
        → let (p, r') = slab_take r links (some i) size in
          (p ≡ some x)
          × (r'.arena ≡ r.arena)
          × Holds r' links (with_stack stacks i xs)
          × IsFresh x (with_stack stacks i xs j)
    unfolding slab_take
    take-Holds size j jlt =
        rw (top-IsChain.0, neq-==-false x 0 top-IsChain.1)
          (
            refl,
            refl,
            record {
              five = rw length-set h.five;
              chain = take-IsChain;
              distinct = take-DistinctBlocks;
              apart = λ m n y mlt nlt mm mn.
                  h.apart m n y mlt nlt (take_owner y m mm) (take_owner y n mn);
            },
            take-IsFresh j jlt,
          )

  -- With a stack that is not empty, `slabAlloc` returns its top, pops it and leaves the arena alone;
  -- the block is in none of the free lists after that.
  pub slab_alloc_pops :
      (size i x : ℕ) (xs : List ℕ) (j : ℕ)
      → slab_class_index size ≡ some i
      → stacks i ≡ x ∷ xs
      → j < 5
      → let (p, r') = slab_alloc r links size in
        (p ≡ some x)
        × (r'.arena ≡ r.arena)
        × Holds r' links (with_stack stacks i xs)
        × IsFresh x (with_stack stacks i xs j)
  unfolding slab_alloc
  slab_alloc_pops size i x xs j cls top jlt =
      rw cls (take-Holds i x xs (index-lt-five size i cls) top size j jlt)

  -- With an empty stack, `slabAlloc` takes a block of the class's size from the arena.
  pub slab_alloc_bumps :
      (size i : ℕ)
      → slab_class_index size ≡ some i
      → stacks i ≡ []
      → let (p, r') = slab_alloc r links size in
        ((p, r'.arena) ≡ alloc r.arena (get_or slab_sizes i 0) 8) × Holds r' links stacks
  unfolding slab_alloc slab_take
  slab_alloc_bumps size i cls empty =
      let head : get_or r.free_lists i 0 ≡ 0 = rw empty at (h.chain i (index-lt-five size i cls)) in
      rw (cls, head)
        (refl, record { five = h.five; chain = h.chain; distinct = h.distinct; apart = h.apart })
