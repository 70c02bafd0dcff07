-- ===== src/Core/Utils.antt =====
-- src/core/Utils.hpp: the FNV-1a hash, alignment, and the pool of interned strings.
-- `size_t` and `uint64_t` are 64 bits wide; a wrapping operation is written `% word`.
pub mod Words
pub mod Pools
use lsm_toolchain.Prelude.{
  ℕ, ◌+◌, ◌-◌, ◌*◌, ◌%◌, ◌^◌, bit_and, bit_xor, Bool, true, false, ◌&&◌, not, List, [], ◌∷◌, Option,
  none, some, ◌==◌, if◌then◌else◌,
}

-- 2^64
abbrev pub word : ℕ
word = 2 ^ 64

-- `a - b` on `size_t`
abbrev pub sub_size : ℕ → ℕ → ℕ
sub_size a b = (a + word - b) % word

-- `(value + (alignment - 1)) & ~(alignment - 1)`, where `~m` is 2^64 - 1 - m
unfoldable pub align_up : ℕ → ℕ → ℕ
align_up value alignment =
    let m = sub_size alignment 1 in bit_and ((value + m) % word) (word - 1 - m)

-- `x && ((x & (x - 1)) == 0)`
unfoldable pub is_power_of_two : ℕ → Bool
is_power_of_two x = not (x == 0) && (bit_and x (sub_size x 1) == 0)

-- one round of the hash loop: `hash ^= c; hash *= prime;`
unfoldable pub hash_step : ℕ → ℕ → ℕ
hash_step hash c = (bit_xor hash c * 1099511628211) % word

unfoldable pub hash_from : ℕ → List ℕ → ℕ
hash_from hash [] = hash
hash_from hash (c ∷ cs) = hash_from (hash_step hash c) cs

-- The bytes of a string are numbers below 256.
unfoldable pub hash_string : List ℕ → ℕ
unfolding hash_from hash_step
hash_string str = hash_from 14695981039346656037 str

-- A string in the pool: the address of its characters, which `c_str` returns, and its bytes. A node
-- of the map keeps its place until it is erased.
pub record Pooled : Type 0 where
  pub address : ℕ
  pub bytes : List ℕ

-- The pool, from hashes to the strings that they stand for: `unordered_map<uint64_t, string>`.
abbrev pub Pool : Type 0
Pool = List (ℕ × Pooled)

unfoldable pub find : ℕ → Pool → Option Pooled
find h [] = none
find h ((k, s) ∷ p) = if k == h then some s else find h p

-- `intern` returns the address of the pooled string, and the pool after it; `emplace` runs on an
-- absent key only. `place` is the address where a new node would have its characters.
unfoldable pub intern : ℕ → List ℕ → Pool → ℕ × Pool
intern place str pool = elim (find (hash_string str) pool) [
  | some s ↦ (s.address, pool)
  | none ↦ (place, (hash_string str, record { address = place; bytes = str }) ∷ pool)
]

pub clear : Pool → Pool
clear pool = []
