-- ===== src/Tests/Arenas.antt =====
-- The arena's theorems at small arenas (src/core/Arena.hpp).
use lsm_toolchain.Prelude.{
  ℕ, ◌+◌, ◌%◌, ◌^◌, ◌≤◌, ◌<◌, ◌≡◌, refl, true, some, List, [], ◌∷◌, ◌++◌, arith,
}
use lsm_toolchain.Core.Utils.{align_up}
use lsm_toolchain.Core.Arena.{
  Arena, Memory, owning, destroy, move, move_assign, alloc, alloc_string, padding,
}
use lsm_toolchain.Core.Arena.Bounds.{
  IsValid, alloc_block, alloc_finds, alloc_each, alloc_each_disjoint, Ordered,
}
use lsm_toolchain.Core.Arena.Ownership.{
  owning-IsValid, move_frees_once, move_assign_frees, alloc_string_lem, bytes_at,
}

-- three bytes of 256 are taken
abbrev sample : Arena
sample = record {
  raw_buffer = 0;
  buffer = 4096;
  capacity = 256;
  offset = 3;
  is_external_buffer = true;
}

abbrev taken : Arena
taken = record sample { offset = 18 }

sample-IsValid : IsValid sample
sample-IsValid = record { placed = omega arith; within = omega arith }

alloc-sample : alloc sample 10 (2 ^ 3) ≡ (some 4104, taken)
unfolding alloc padding align_up
alloc-sample = refl

alloc_block_example :
    (4104 % 2 ^ 3 ≡ 0)
    × (4096 + 3 ≤ 4104)
    × (4104 + 10 ≡ 4096 + 18)
    × (taken.buffer ≡ sample.buffer)
    × (taken.capacity ≡ sample.capacity)
    × IsValid taken
alloc_block_example =
    alloc_block sample-IsValid 10 3 (omega arith, omega arith) 4104 taken alloc-sample

alloc_finds_example : (alloc sample 10 (2 ^ 3)).0 ≡ some (align_up 4099 (2 ^ 3))
alloc_finds_example =
    alloc_finds sample-IsValid 10 3 (omega arith, omega arith) (omega arith) (omega arith) 513
      (omega arith) (omega arith)

abbrev requests : List (ℕ × ℕ)
requests = (10, 3) ∷ (300, 0) ∷ (4, 2) ∷ []

alloc_each_disjoint_example :
    let (bs, last) = alloc_each sample requests in
    Ordered 4099 bs (last.buffer + last.offset) × (last.buffer + last.offset ≤ 4352)
alloc_each_disjoint_example = alloc_each_disjoint sample requests sample-IsValid (omega arith)

owning-IsValid_example :
    let a = owning 1000 256 in
    (a.buffer % 64 ≡ 0)
    × (1000 ≤ a.buffer)
    × (a.buffer + a.capacity ≤ 1320)
    × (a.offset ≡ 0)
    × IsValid a
owning-IsValid_example = owning-IsValid 1000 256 (omega arith) (omega arith)

move_frees_once_example :
    let (moved, left) = move (owning 1000 256) in
    ((destroy moved).1 ++ (destroy left).1 ≡ (destroy (owning 1000 256)).1)
    × ((destroy (destroy (owning 1000 256)).0).1 ≡ [])
move_frees_once_example = move_frees_once (owning 1000 256)

move_assign_frees_example :
    let (t, o, freed) = move_assign (owning 1000 256) (owning 5000 64) in
    freed ++ ((destroy t).1 ++ (destroy o).1)
    ≡ (destroy (owning 1000 256)).1 ++ (destroy (owning 5000 64)).1
move_assign_frees_example = move_assign_frees (owning 1000 256) (owning 5000 64)

abbrev blank : Memory
blank = λ p. 255

alloc_string-sample : (alloc_string sample blank (some (104 ∷ 105 ∷ []))).0 ≡ some 4099
unfolding alloc_string alloc padding align_up
alloc_string-sample = refl

alloc_string_example :
    let m = (alloc_string sample blank (some (104 ∷ 105 ∷ []))).2 in
    (4099 ≤ 4099)
    × (4101 < 4352)
    × (bytes_at m 4099 2 ≡ 104 ∷ 105 ∷ [])
    × (m 4101 ≡ 0)
    × (m 4098 ≡ 255)
alloc_string_example =
    alloc_string_lem sample blank (104 ∷ 105 ∷ []) 4099 4098 sample-IsValid
      (omega arith, omega arith) alloc_string-sample (omega arith)
