-- ===== src/Core/Utils/Words.antt =====
-- src/core/Utils.hpp: powers of two, and the range of the hash.
use native.Mathlib.Nat.{mod-lt, pow-suc}
use lsm_toolchain.Prelude.{
  ℕ, zero, suc, ◌+◌, ◌-◌, ◌*◌, ◌/◌, ◌^◌, ◌≤◌, ◌<◌, ◌≡◌, ap, ap₂, ◌⊎◌, inl, inr, ◌∙◌, ◌↔◌, bit_and,
  true, List, [], ◌∷◌, arith,
}
use lsm_toolchain.Prelude.Bits.{bit_and_step, two_pow_pos, zero-bit_and}
use lsm_toolchain.Core.Utils.{word, sub_size, is_power_of_two, hash_step, hash_from, hash_string}

bit_and_self_fuel : (n x : ℕ) → x ≤ n → bit_and x x ≡ x
bit_and_self_fuel n zero h = zero-bit_and 0
bit_and_self_fuel zero (suc x) h = absurd (omega arith)
bit_and_self_fuel (suc n) (suc x) h =
    omega (arith, bit_and_step (suc x) (suc x), bit_and_self_fuel n (suc x / 2) (omega arith))

halves : (x : ℕ) → (x ≡ 2 * (x / 2)) ⊎ (x ≡ 2 * (x / 2) + 1)
halves x = omega arith

pow_two : (k : ℕ) → 2 ^ suc k ≡ 2 * 2 ^ k
pow_two k = omega (arith, pow-suc 2 k)

-- the lowest digit of `x & (x - 1)`
odd_step : (y : ℕ) → bit_and (2 * y + 1) (2 * y) ≡ 2 * y
odd_step y =
    bit_and_step (2 * y + 1) (2 * y)
    ∙ omega (
      arith,
      bit_and_self_fuel y y,
      ap₂ bit_and (let e : (2 * y + 1) / 2 ≡ y = omega arith in e)
          (let e : 2 * y / 2 ≡ y = omega arith in e),
    )

even_step : (y : ℕ) → 0 < y → bit_and (2 * y) (2 * y - 1) ≡ 2 * bit_and y (y - 1)
even_step y h =
    bit_and_step (2 * y) (2 * y - 1)
    ∙ omega (
      arith,
      ap₂ bit_and (let e : 2 * y / 2 ≡ y = omega arith in e)
          (let e : (2 * y - 1) / 2 ≡ y - 1 = omega arith in e),
    )

cleared_fuel : (n x : ℕ) → x ≤ n → 0 < x → bit_and x (x - 1) ≡ 0 → (k : ℕ) × (x ≡ 2 ^ k)
cleared_fuel zero x h p e = absurd (omega arith)
cleared_fuel (suc n) x h p e = elim (halves x) [
  | inl even ↦
      let (k, y_eq) =
        cleared_fuel n (x / 2) (omega arith) (omega arith) (
          omega
            (arith, even_step (x / 2) (omega arith), ap₂ bit_and even (ap (λ t. t - 1) even))) in
      (suc k, omega (arith, pow-suc 2 k))
  | inr odd ↦ (
    0,
    omega
        (arith, odd_step (x / 2), ap₂ bit_and odd (let o : x - 1 ≡ 2 * (x / 2) = omega arith in o)),
  )
]

two_pow_cleared : (k : ℕ) → bit_and (2 ^ k) (2 ^ k - 1) ≡ 0
two_pow_cleared zero = odd_step 0
two_pow_cleared (suc k) =
    ap₂ bit_and (pow_two k) (ap (λ t. t - 1) (pow_two k))
    ∙ omega (arith, even_step (2 ^ k) (two_pow_pos k), two_pow_cleared k)

-- `isPowerOfTwo` holds exactly of the powers of two.
pub is_power_of_two_iff : (x : ℕ) → x < word → (is_power_of_two x ≡ true) ↔ ((k : ℕ) × (x ≡ 2 ^ k))
unfolding is_power_of_two
is_power_of_two_iff x h = (
  λ e.
      let pos : 0 < x = ground arith in
      let low : sub_size x 1 ≡ x - 1 = omega arith in
      cleared_fuel x x (omega arith) pos (rw (← low) (ground arith)),
  λ (k, e).
      let low : sub_size x 1 ≡ 2 ^ k - 1 = omega (arith, two_pow_pos k) in
      ground (arith, two_pow_pos k, two_pow_cleared k, ap₂ bit_and e low),
)

hash_from-lt : (h : ℕ) (cs : List ℕ) → h < word → hash_from h cs < word
unfolding hash_from hash_step
hash_from-lt h [] lt = lt
hash_from-lt h (c ∷ cs) lt = hash_from-lt (hash_step h c) cs (mod-lt _ (omega arith))

-- The hash of any string is a `uint64_t`.
pub hash_string-lt : (str : List ℕ) → hash_string str < word
unfolding hash_string
hash_string-lt str = hash_from-lt 14695981039346656037 str (omega arith)
