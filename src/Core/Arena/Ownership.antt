-- ===== src/Core/Arena/Ownership.antt =====
-- src/core/Arena.hpp: construction, moves and destruction, and the strings that an arena holds.
use lsm_toolchain.Prelude.{
  ℕ, suc, ◌+◌, ◌%◌, ◌≤◌, ◌<◌, ◌≡◌, ◌≢◌, none, some, List, [], ◌∷◌, ◌++◌, length, get_elem?, arith,
  ap, ap₂, ◌∙◌, refl, zero,
}
use lsm_toolchain.Core.Utils.{word}
use lsm_toolchain.Core.Arena.{
  Arena, Memory, owning, destroy, move, move_assign, alloc, store_byte, copy_to, alloc_string,
  write_string,
}
use lsm_toolchain.Core.Arena.Bounds.{IsValid, Fits, align_up_bounds, alloc_block}

-- An arena over a block of `size + 64` bytes that `malloc` returned starts on a cache line, lies
-- within the block, and is valid and empty.
pub owning-IsValid :
    (raw size : ℕ)
    → raw ≢ 0
    → raw + size + 64 < word
    → let a = owning raw size in
      (a.buffer % 64 ≡ 0)
      × (raw ≤ a.buffer)
      × (a.buffer + a.capacity ≤ raw + size + 64)
      × (a.offset ≡ 0)
      × IsValid a
unfolding owning
owning-IsValid raw size nz fits =
    let b = align_up_bounds raw 6 (omega arith) (omega arith) in
    (
      ground arith,
      ground arith,
      ground arith,
      ground arith,
      record { placed = ground arith; within = ground arith },
    )

-- A second destruction frees nothing, and an arena that was moved from has nothing to free: the
-- two arenas of a move free together what the one would have freed.
pub move_frees_once :
    (a : Arena)
    → let (moved, left) = move a in
      ((destroy moved).1 ++ (destroy left).1 ≡ (destroy a).1) × ((destroy (destroy a).0).1 ≡ [])
unfolding destroy move
move_frees_once a = ground arith

-- Move assignment frees the old buffer of its target at once and leaks none: with the
-- destruction of both arenas each buffer is freed as often as without the assignment.
pub move_assign_frees :
    (this other : Arena)
    → let (t, o, freed) = move_assign this other in
      freed ++ ((destroy t).1 ++ (destroy o).1) ≡ (destroy this).1 ++ (destroy other).1
unfolding destroy move_assign
move_assign_frees this other = ground arith

-- A moved-from arena grants no request.
pub moved-refuses : (a : Arena) (size alignment : ℕ) → (alloc (move a).1 size alignment).0 ≡ none
unfolding alloc move
moved-refuses a size alignment = ground arith

copy_to-outside : (m : Memory) (p : ℕ) (bs : List ℕ) (q : ℕ) → (q < p) → copy_to m p bs q ≡ m q
unfolding copy_to
copy_to-outside m p [] q h = refl
copy_to-outside m p (b ∷ bs) q h =
    copy_to-outside (store_byte m p b) (p + 1) bs q (omega arith) ∙ ground arith

copy_to-inside :
    (m : Memory) (p : ℕ) (bs : List ℕ) (i b : ℕ)
    → get_elem? bs i ≡ some b
    → copy_to m p bs (p + i) ≡ b
unfolding copy_to
copy_to-inside m p [] i b h = cc
copy_to-inside m p (c ∷ bs) zero b h =
    copy_to-outside (store_byte m p c) (p + 1) bs (p + 0) (omega arith) ∙ ground arith
copy_to-inside m p (c ∷ bs) (suc i) b h =
    ap (copy_to (store_byte m p c) (p + 1) bs) (omega arith)
    ∙ copy_to-inside (store_byte m p c) (p + 1) bs i b h

lt_of_get : (bs : List ℕ) (i b : ℕ) → get_elem? bs i ≡ some b → i < length bs
lt_of_get [] i b h = cc
lt_of_get (c ∷ bs) zero b h = omega arith
lt_of_get (c ∷ bs) (suc i) b h = omega (arith, lt_of_get bs i b h)

-- the `n` bytes from an address on
abbrev pub bytes_at : Memory → ℕ → ℕ → List ℕ
bytes_at m p zero = []
bytes_at m p (suc n) = m p ∷ bytes_at m (p + 1) n

bytes_at-eq :
    (m : Memory) (p : ℕ) (bs : List ℕ)
    → ((i b : ℕ) → get_elem? bs i ≡ some b → m (p + i) ≡ b)
    → bytes_at m p (length bs) ≡ bs
bytes_at-eq m p [] h = refl
bytes_at-eq m p (b ∷ bs) h =
    ap₂ ◌∷◌ (ap m (omega arith) ∙ h 0 b refl)
      (bytes_at-eq m (p + 1) bs (λ i c e. ap m (omega arith) ∙ h (suc i) c e))

module _ (m : Memory) (dest : ℕ) (str : List ℕ) where
  written-at : (i b : ℕ) → get_elem? str i ≡ some b → write_string (some dest) str m (dest + i) ≡ b
  unfolding write_string store_byte
  written-at i b h = ground (arith, lt_of_get str i b, copy_to-inside m dest str i b)

  written-last : write_string (some dest) str m (dest + length str) ≡ 0
  unfolding write_string store_byte
  written-last = ground arith

  written-before : (q : ℕ) → q < dest → write_string (some dest) str m q ≡ m q
  unfolding write_string store_byte
  written-before q h = ground (arith, copy_to-outside m dest str q)

-- A string that is stored in an arena reads back byte for byte, ends in a zero, and lies in the
-- part that was free; no byte in front of that part changes.
pub alloc_string_lem :
    (a : Arena) (m : Memory) (str : List ℕ) (dest q : ℕ)
    → IsValid a
    → Fits a (length str + 1) 0
    → (alloc_string a m (some str)).0 ≡ some dest
    → q < a.buffer + a.offset
    → let m' = (alloc_string a m (some str)).2 in
      (a.buffer + a.offset ≤ dest)
      × (dest + length str < a.buffer + a.capacity)
      × (bytes_at m' dest (length str) ≡ str)
      × (m' (dest + length str) ≡ 0)
      × (m' q ≡ m q)
unfolding alloc_string
alloc_string_lem a m str dest q v f e lt =
    let n : (length str + 1) % word ≡ length str + 1 = omega (arith, f.1) in
    let a' = (alloc a (length str + 1) 1).1 in
    let granted : (alloc a (length str + 1) 1).0 ≡ some dest = rw n at e in
    let b = alloc_block v (length str + 1) 0 f dest a' (ap (λ o. (o, a')) granted) in
    rw (n, granted)
      (
        b.1,
        omega (arith, b),
        bytes_at-eq (write_string (some dest) str m) dest str (written-at m dest str),
        written-last m dest str,
        written-before m dest str q (omega (arith, b.1)),
      )
