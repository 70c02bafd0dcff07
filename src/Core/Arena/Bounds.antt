-- ===== src/Core/Arena/Bounds.antt =====
-- src/core/Arena.hpp: where the blocks that `alloc` hands out lie.
use lsm_toolchain.Prelude.{
  ℕ, suc, ◌+◌, ◌-◌, ◌*◌, ◌/◌, ◌%◌, ◌^◌, ◌≤◌, ◌<◌, bit_and, ◌≡◌, ◌≢◌, Option, none, some, List, [],
  ◌∷◌, arith, ◌∙◌, ap, ap₂, Option-cases, inl, inr,
}
use lsm_toolchain.Prelude.Bits.{bit_and_round, two_pow_pos}
use lsm_toolchain.Core.Utils.{word, sub_size, align_up}
use lsm_toolchain.Core.Arena.{Arena, alloc, padding}
use native.Mathlib.Nat.{
  suc-mul, mod-lt, mul-mod_left, div-add-mod', div-lt_iff_lt-mul, mul-le-mul_right,
}

-- The arena's bytes lie below the top of the address space, and the offset lies within them.
pub record IsValid (a : Arena) : Type 0 where
  pub placed : a.buffer + a.capacity < word
  pub within : a.offset ≤ a.capacity

-- Where the sum does not wrap, `align_up` takes the remainder off.
align_up_lem :
    (x k : ℕ)
    → k < 64
    → x + 2 ^ k ≤ word
    → align_up x (2 ^ k) ≡ x + (2 ^ k - 1) - (x + (2 ^ k - 1)) % 2 ^ k
unfolding align_up
align_up_lem x k h fits =
    let m : sub_size (2 ^ k) 1 ≡ 2 ^ k - 1 = omega (arith, two_pow_pos k) in
    let s : (x + sub_size (2 ^ k) 1) % word ≡ x + (2 ^ k - 1) = omega (arith, two_pow_pos k) in
    let c : word - 1 - sub_size (2 ^ k) 1 ≡ 2 ^ 64 - 2 ^ k = omega (arith, two_pow_pos k) in
    ap₂ bit_and s c
    ∙ bit_and_round k 64 (x + (2 ^ k - 1)) (omega arith) (omega (arith, two_pow_pos k))

sub-mod-mod : (y m : ℕ) → (y - y % m) % m ≡ 0
sub-mod-mod y m =
    let e : y - y % m ≡ y / m * m = omega (arith, div-add-mod' y m) in
    ap (λ t. t % m) e ∙ mul-mod_left (y / m) m

-- Rounding up to a power of two, where the sum does not wrap.
pub align_up_bounds :
    (x k : ℕ)
    → k < 64
    → x + 2 ^ k ≤ word
    → (x ≤ align_up x (2 ^ k)) × (align_up x (2 ^ k) < x + 2 ^ k) × (align_up x (2 ^ k) % 2 ^ k ≡ 0)
align_up_bounds x k h fits = rw (align_up_lem x k h fits) (
  omega (arith, mod-lt (x + (2 ^ k - 1)) (two_pow_pos k)),
  omega (arith, two_pow_pos k),
  sub-mod-mod (x + (2 ^ k - 1)) (2 ^ k),
)

-- No multiple of the alignment lies between the address and the rounded one.
align_up_least :
    (x k c : ℕ) → k < 64 → x + 2 ^ k ≤ word → x ≤ c * 2 ^ k → align_up x (2 ^ k) ≤ c * 2 ^ k
align_up_least x k c h fits le =
    let y : ℕ = x + (2 ^ k - 1) in
    let q : y / 2 ^ k < suc c =
      (div-lt_iff_lt-mul (two_pow_pos k)).1 (omega (arith, two_pow_pos k, suc-mul c (2 ^ k))) in
    omega (
      arith,
      align_up_lem x k h fits,
      div-add-mod' y (2 ^ k),
      mul-le-mul_right (2 ^ k) (let r : y / 2 ^ k ≤ c = omega arith in r),
    )

-- The request does not reach past the address space from anywhere in the arena.
abbrev pub Fits : Arena → ℕ → ℕ → Type 0
Fits a size k = (k < 64) × (a.buffer + a.capacity + 2 ^ k + size ≤ word)

module _ {a : Arena} (v : IsValid a) (size k : ℕ) (f : Fits a size k) where
  here-lt : a.buffer + a.offset + 2 ^ k ≤ word
  here-lt = omega (arith, v.within, f.1)

  -- The padding leads from the next free address to the next aligned one.
  padding_lem :
      (padding a (2 ^ k) < 2 ^ k)
      × (a.buffer + a.offset + padding a (2 ^ k) ≡ align_up (a.buffer + a.offset) (2 ^ k))
  unfolding padding
  padding_lem =
      let x : (a.buffer + a.offset) % word ≡ a.buffer + a.offset =
        omega (arith, two_pow_pos k, here-lt) in
      let b = align_up_bounds (a.buffer + a.offset) k f.0 here-lt in
      rw x (omega (arith, b, here-lt), omega (arith, b, here-lt))

  -- Where the alignment is a power of two, and buffer, alignment and size together do not reach past
  -- the address space: a block that `alloc` returns is aligned, starts in the free part, ends where
  -- the free part now begins, and lies within the buffer.
  pub alloc_block :
      (p : ℕ) (a' : Arena)
      → alloc a size (2 ^ k) ≡ (some p, a')
      → (p % 2 ^ k ≡ 0)
        × (a.buffer + a.offset ≤ p)
        × (p + size ≡ a'.buffer + a'.offset)
        × (a'.buffer ≡ a.buffer)
        × (a'.capacity ≡ a.capacity)
        × IsValid a'
  unfolding alloc
  alloc_block p a' e =
      let b = align_up_bounds (a.buffer + a.offset) k f.0 here-lt in
      let (l, q) = padding_lem in
      let p_eq : p ≡ align_up (a.buffer + a.offset) (2 ^ k) =
        ground (arith, v.placed, v.within, f.1) in
      (
        rw p_eq b.2,
        rw p_eq b.0,
        ground (arith, v.placed, v.within, f.1),
        ground arith,
        ground arith,
        record {
          placed = ground (arith, v.placed);
          within = ground (arith, v.placed, v.within, f.1);
        },
      )

  -- `alloc` refuses only a request of no bytes, and one for which no aligned block is left.
  pub alloc_finds :
      a.buffer ≢ 0
      → size ≢ 0
      → (c : ℕ) → a.buffer + a.offset ≤ c * 2 ^ k
      → c * 2 ^ k + size ≤ a.buffer + a.capacity
      → (alloc a size (2 ^ k)).0 ≡ some (align_up (a.buffer + a.offset) (2 ^ k))
  unfolding alloc
  alloc_finds nb ns c lo hi =
      let least = align_up_least (a.buffer + a.offset) k c f.0 here-lt lo in
      let (l, q) = padding_lem in ground (arith, v.placed, v.within, f.1, two_pow_pos k)

-- A refused request changes nothing.
pub alloc_refused :
    (a : Arena) (size alignment : ℕ)
    → (alloc a size alignment).0 ≡ none
    → (alloc a size alignment).1 ≡ a
unfolding alloc
alloc_refused a size alignment h = ground arith

-- a granted block joins the others
with_block : Option ℕ → ℕ → List (ℕ × ℕ) → List (ℕ × ℕ)
with_block none size bs = bs
with_block (some p) size bs = (p, size) ∷ bs

-- A client's requests in order, each a size and the exponent of its alignment: the blocks that
-- were granted, as address and size, and the arena after them.
pub alloc_each : Arena → List (ℕ × ℕ) → List (ℕ × ℕ) × Arena
unfolding with_block
alloc_each a [] = ([], a)
alloc_each a ((size, k) ∷ rs) =
    let (p, a') = alloc a size (2 ^ k) in
    let (bs, last) = alloc_each a' rs in (with_block p size bs, last)

-- The blocks lie one behind the other between two addresses.
abbrev pub Ordered : ℕ → List (ℕ × ℕ) → ℕ → Type 0
Ordered lo [] hi = lo ≤ hi
Ordered lo ((p, size) ∷ bs) hi = (lo ≤ p) × Ordered (p + size) bs hi

-- Every request of the list is small enough for the arena's place in the address space.
abbrev pub AllFit : Arena → List (ℕ × ℕ) → Type 0
AllFit a [] = Unit
AllFit a ((size, k) ∷ rs) = Fits a size k × AllFit a rs

Ordered-weaken :
    (lo lo' hi : ℕ) (bs : List (ℕ × ℕ)) → lo' ≤ lo → Ordered lo bs hi → Ordered lo' bs hi
Ordered-weaken lo lo' hi [] h o = omega arith
Ordered-weaken lo lo' hi ((p, size) ∷ bs) h o = (omega arith, o.1)

AllFit-same :
    (a b : Arena) (rs : List (ℕ × ℕ))
    → b.buffer ≡ a.buffer
    → b.capacity ≡ a.capacity
    → AllFit a rs
    → AllFit b rs
AllFit-same a b [] p q f = tt
AllFit-same a b ((size, k) ∷ rs) p q f = (omega arith, AllFit-same a b rs p q f.1)

-- Of a sequence of requests whose alignments are powers of two, and each of whose sizes does not reach
-- past the address space with the buffer and its alignment: the blocks that are granted do not
-- overlap, as each ends before the next begins, and all lie in what was the free part of the buffer.
pub alloc_each_disjoint :
    (a : Arena) (rs : List (ℕ × ℕ))
    → IsValid a
    → AllFit a rs
    → let (bs, last) = alloc_each a rs in
      Ordered (a.buffer + a.offset) bs (last.buffer + last.offset)
      × (last.buffer + last.offset ≤ a.buffer + a.capacity)
unfolding alloc_each
alloc_each_disjoint a [] v f = (omega arith, omega (arith, v.within))
alloc_each_disjoint a ((size, k) ∷ rs) v f = elim (Option-cases (alloc a size (2 ^ k)).0) [
  | inl refused ↦
      rw (alloc_refused a size (2 ^ k) refused, refused) (alloc_each_disjoint a rs v f.1)
  | inr (p, granted) ↦
      let a' = (alloc a size (2 ^ k)).1 in
      let b = alloc_block v size k f.0 p a' (ap (λ o. (o, a')) granted) in
      let ih = alloc_each_disjoint a' rs b.5 (AllFit-same a a' rs b.3 b.4 f.1) in
      rw granted ((b.1, rw (b.2) ih.0), omega (arith, b, ih.1))
]
