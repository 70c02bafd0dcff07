-- ===== src/Prelude/Or.antt =====
-- `|` of numbers, as arithmetic, at every width.
use Prim.Native.Nat.{
  ℕ, zero, suc, ◌+◌, ◌*◌, ◌/◌, ◌%◌, ◌^◌, ◌≤◌, ◌<◌, max, bit_or, digits, bit_or-bitwise,
}
use mathlib.Core.Path.{◌≡◌, refl, sym, ap, ap₂, subst, ◌∙◌}
use native.Mathlib.Omega.{arith}
use native.Mathlib.Decide.{ℕ_discrete}
use native.Mathlib.Nat.{pow-suc}
use lsm_toolchain.Prelude.Bits.{mul_two_pow, two_pow_pos}

-- the digits of `a | b`, as far as `n` of them
abbrev ored : ℕ → ℕ → ℕ → ℕ
ored n a b = digits (λ d. d) max n a b

-- One more digit than `a` has adds nothing.
ored-suc : (n a b : ℕ) → a ≤ n → ored (suc n) a b ≡ ored n a b
ored-suc zero zero b h = refl
ored-suc (suc n) zero b h = refl
ored-suc zero (suc a) b h = absurd (omega arith)
ored-suc (suc n) (suc a) b h = omega (arith, ored-suc n (suc a / 2) (b / 2) (omega arith))

ored_enough : (n a b : ℕ) → a ≤ n → ored n a b ≡ bit_or a b
ored_enough zero a b h =
    let e : a ≡ 0 = omega arith in
    subst (λ k. ored 0 k b ≡ bit_or k b) (sym e) (sym (bit_or-bitwise 0 b))
ored_enough (suc n) a b h = elim (ℕ_discrete a (suc n)) [
  | yes e ↦ subst (λ k. ored k a b ≡ bit_or a b) e (sym (bit_or-bitwise a b))
  | no below ↦ ored-suc n a b (omega arith) ∙ ored_enough n a b (omega arith)
]

pub zero-bit_or : (b : ℕ) → bit_or 0 b ≡ b
zero-bit_or b = sym (ored_enough 0 0 b (omega arith))

-- The law for the lowest digit.
bit_or_step : (a b : ℕ) → bit_or a b ≡ bit_or (a / 2) (b / 2) * 2 + max (a % 2) (b % 2)
bit_or_step zero b = omega (arith, zero-bit_or b, zero-bit_or (b / 2))
bit_or_step (suc a) b =
    sym (ored_enough (suc a) (suc a) b (omega arith))
    ∙ omega (arith, ored_enough a (suc a / 2) (b / 2) (omega arith))

-- The digits above the lowest `k` and the digits below are joined apart.
pub bit_or_split :
    (k p q r s : ℕ)
    → q < 2 ^ k
    → s < 2 ^ k
    → bit_or (p * 2 ^ k + q) (r * 2 ^ k + s) ≡ bit_or p r * 2 ^ k + bit_or q s
bit_or_split zero p q r s hq hs =
    let eq : q ≡ 0 = omega arith in
    let es : s ≡ 0 = omega arith in
    let ea : p * 2 ^ 0 + q ≡ p = omega arith in
    let eb : r * 2 ^ 0 + s ≡ r = omega arith in
    omega (arith, zero-bit_or 0, ap₂ bit_or eq es, ap₂ bit_or ea eb)
bit_or_split (suc k) p q r s hq hs =
    let ea : (p * 2 ^ suc k + q) / 2 ≡ p * 2 ^ k + q / 2 = omega (arith, mul_two_pow p k) in
    let eb : (r * 2 ^ suc k + s) / 2 ≡ r * 2 ^ k + s / 2 = omega (arith, mul_two_pow r k) in
    bit_or_step (p * 2 ^ suc k + q) (r * 2 ^ suc k + s)
    ∙ omega (
      arith,
      ap₂ bit_or ea eb,
      mul_two_pow p k,
      mul_two_pow r k,
      mul_two_pow (bit_or p r) k,
      bit_or_step q s,
      bit_or_split k p (q / 2) r (s / 2) (omega (arith, pow-suc 2 k)) (omega (arith, pow-suc 2 k)),
    )

bit_or-zero_upto : (n a : ℕ) → a ≤ n → bit_or a 0 ≡ a
bit_or-zero_upto zero a h =
    let e : a ≡ 0 = omega arith in omega (arith, zero-bit_or 0, ap (λ n. bit_or n 0) e)
bit_or-zero_upto (suc n) zero h = zero-bit_or 0
bit_or-zero_upto (suc n) (suc a) h =
    omega (arith, bit_or_step (suc a) 0, bit_or-zero_upto n (suc a / 2) (omega arith))

pub bit_or-zero : (a : ℕ) → bit_or a 0 ≡ a
bit_or-zero a = bit_or-zero_upto a a (omega arith)

-- A number joined with digits where it has none.
pub bit_or_low : (k p s : ℕ) → s < 2 ^ k → bit_or (p * 2 ^ k) s ≡ p * 2 ^ k + s
bit_or_low k p s hs =
    let ea : p * 2 ^ k + 0 ≡ p * 2 ^ k = omega arith in
    let eb : 0 * 2 ^ k + s ≡ s = omega arith in
    ap₂ bit_or (sym ea) (sym eb)
    ∙ bit_or_split k p 0 0 s (two_pow_pos k) hs
    ∙ ap₂ (λ m n. m * 2 ^ k + n) (bit_or-zero p) (zero-bit_or s)
