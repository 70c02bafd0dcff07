-- ===== src/Tests/Utils.antt =====
-- The theorems about src/core/Utils.hpp at small inputs.
use lsm_toolchain.Prelude.{
  ℕ, ◌≢◌, sym, ap, ◌∙◌, get_or, ◌^◌, ◌≡◌, ◌↔◌, refl, true, List, [], ◌∷◌, some, arith,
}
use lsm_toolchain.Core.Utils.{is_power_of_two, hash_string, Pooled, find, intern}
use lsm_toolchain.Core.Utils.Words.{is_power_of_two_iff}
use lsm_toolchain.Core.Utils.Pools.{intern_each, intern_stable, intern_collision}

abbrev hello : List ℕ
hello = 104 ∷ 105 ∷ []

-- the offset basis is the hash of the empty string
hash_string-nil : hash_string [] ≡ 14695981039346656037
unfolding hash_string
hash_string-nil = refl

-- the test vector of FNV-1a for "a"
hash_string-a : hash_string (97 ∷ []) ≡ 0xaf63dc4c8601ec8c
unfolding hash_string
hash_string-a = refl

is_power_of_two_example : (is_power_of_two 96 ≡ true) ↔ ((k : ℕ) × (96 ≡ 2 ^ k))
is_power_of_two_example = is_power_of_two_iff 96 (omega arith)

-- two strings with one FNV-1a hash: "8yn0iYCKYHlIj4-BwPqk" and "GReLUrM4wMqfg9yzV3KQ"
abbrev first_string : List ℕ
first_string =
    56 ∷ 121 ∷ 110 ∷ 48 ∷ 105 ∷ 89 ∷ 67 ∷ 75 ∷ 89 ∷ 72 ∷ 108 ∷ 73 ∷ 106 ∷ 52 ∷ 45 ∷ 66 ∷ 119 ∷ 80
    ∷ 113 ∷ 107 ∷ []

abbrev second_string : List ℕ
second_string =
    71 ∷ 82 ∷ 101 ∷ 76 ∷ 85 ∷ 114 ∷ 77 ∷ 52 ∷ 119 ∷ 77 ∷ 113 ∷ 102 ∷ 103 ∷ 57 ∷ 121 ∷ 122 ∷ 86 ∷ 51
    ∷ 75 ∷ 81 ∷ []

hash_string-first : hash_string first_string ≡ 0x4eac0c95540867e4
unfolding hash_string
hash_string-first = refl

hash_string-second : hash_string second_string ≡ 0x4eac0c95540867e4
unfolding hash_string
hash_string-second = refl

strings_differ : first_string ≢ second_string
strings_differ e = let heads : 56 ≡ 71 = ap (λ xs. get_or xs 0 0) e in omega (arith, heads)

intern_stable_example :
    let (ptr, p1) = intern 4096 hello [] in
    let p2 = intern_each ((8192, []) ∷ (8200, first_string) ∷ []) p1 in
    (find (hash_string hello) p2 ≡ find (hash_string hello) p1)
    × (s : Pooled) × (find (hash_string hello) p2 ≡ some s)
    × (s.address ≡ ptr)
    × (intern 16384 hello p2 ≡ (ptr, p2))
intern_stable_example = intern_stable 4096 16384 hello ((8192, []) ∷ (8200, first_string) ∷ []) []

intern_collision_example :
    let (ptr, p1) = intern 4096 first_string [] in
    (s : Pooled) × (intern 8192 second_string p1 ≡ (ptr, p1))
    × (find (hash_string second_string) p1 ≡ some s)
    × (s.address ≡ ptr)
    × (s.bytes ≡ first_string)
    × (s.bytes ≢ second_string)
unfolding find
intern_collision_example =
    intern_collision 4096 8192 first_string second_string [] refl
      (hash_string-second ∙ sym hash_string-first) strings_differ
