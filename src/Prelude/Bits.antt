-- ===== src/Prelude/Bits.antt =====
-- `&` with a mask whose low bits are clear, as arithmetic, at every width.
use Prim.Native.Nat.{
  ℕ, zero, suc, ◌+◌, ◌-◌, ◌*◌, ◌/◌, ◌%◌, ◌^◌, ◌≤◌, ◌<◌, min, bit_and, digits, bit_and-bitwise,
}
use mathlib.Core.Path.{◌≡◌, refl, sym, ap, ap₂, subst, ◌∙◌}
use native.Mathlib.Omega.{arith}
use native.Mathlib.Decide.{ℕ_discrete}
use Prim.Native.Nat.mul
use native.Mathlib.Nat.{pow-suc, one-le-pow, add-zero, mod-lt, div-add-mod', div-lt_iff_lt-mul}

pub two_pow_pos : (k : ℕ) → 0 < 2 ^ k
two_pow_pos k = one-le-pow k 2 (omega arith)

-- the digits of `a & b`, as far as `n` of them
abbrev anded : ℕ → ℕ → ℕ → ℕ
anded n a b = digits (λ d. zero) min n a b

-- One more digit than `a` has adds nothing.
anded-suc : (n a b : ℕ) → a ≤ n → anded (suc n) a b ≡ anded n a b
anded-suc zero zero b h = refl
anded-suc (suc n) zero b h = refl
anded-suc zero (suc a) b h = absurd (omega arith)
anded-suc (suc n) (suc a) b h = omega (arith, anded-suc n (suc a / 2) (b / 2) (omega arith))

anded_enough : (n a b : ℕ) → a ≤ n → anded n a b ≡ bit_and a b
anded_enough zero a b h =
    let e : a ≡ 0 = omega arith in
    subst (λ k. anded 0 k b ≡ bit_and k b) (sym e) (sym (bit_and-bitwise 0 b))
anded_enough (suc n) a b h = elim (ℕ_discrete a (suc n)) [
  | yes e ↦ subst (λ k. anded k a b ≡ bit_and a b) e (sym (bit_and-bitwise a b))
  | no below ↦ anded-suc n a b (omega arith) ∙ anded_enough n a b (omega arith)
]

-- The law for the lowest digit.
pub bit_and_step : (a b : ℕ) → bit_and a b ≡ bit_and (a / 2) (b / 2) * 2 + min (a % 2) (b % 2)
bit_and_step zero b =
    omega (arith, anded_enough 0 0 b (omega arith), anded_enough 0 0 (b / 2) (omega arith))
bit_and_step (suc a) b =
    sym (anded_enough (suc a) (suc a) b (omega arith))
    ∙ omega (arith, anded_enough a (suc a / 2) (b / 2) (omega arith))

pub zero-bit_and : (b : ℕ) → bit_and 0 b ≡ 0
zero-bit_and b = sym (anded_enough 0 0 b (omega arith))

-- `w` ones keep a number of at most `w` digits.
bit_and_ones : (w a : ℕ) → a < 2 ^ w → bit_and a (2 ^ w - 1) ≡ a
bit_and_ones zero zero h = zero-bit_and 0
bit_and_ones zero (suc a) h = absurd (omega arith)
bit_and_ones (suc w) a h = ground (
  arith,
  bit_and_step a (2 ^ suc w - 1),
  pow-suc 2 w,
  one-le-pow w 2,
  bit_and_ones w (a / 2) (omega (arith, pow-suc 2 w)),
)

pub mul_two_pow : (q k : ℕ) → q * 2 ^ suc k ≡ 2 * (q * 2 ^ k)
mul_two_pow q k = omega (arith, ap (λ (t : ℕ). q * t) (pow-suc 2 k))

-- `w` ones above `k` zeros clear the low `k` digits.
bit_and_high :
    (k w q r : ℕ)
    → q < 2 ^ w
    → r < 2 ^ k
    → bit_and (q * 2 ^ k + r) ((2 ^ w - 1) * 2 ^ k) ≡ q * 2 ^ k
bit_and_high zero w q r hq hr =
    ap₂ bit_and (omega arith) (omega arith) ∙ bit_and_ones w q hq ∙ omega arith
bit_and_high (suc k) w q r hq hr =
    let e1 : (q * 2 ^ suc k + r) / 2 ≡ q * 2 ^ k + r / 2 = omega (arith, mul_two_pow q k) in
    let e2 : ((2 ^ w - 1) * 2 ^ suc k) / 2 ≡ (2 ^ w - 1) * 2 ^ k =
      omega (arith, mul_two_pow (2 ^ w - 1) k) in
    bit_and_step (q * 2 ^ suc k + r) ((2 ^ w - 1) * 2 ^ suc k)
    ∙ omega (
      arith,
      ap₂ bit_and e1 e2,
      mul_two_pow q k,
      mul_two_pow (2 ^ w - 1) k,
      bit_and_high k w q (r / 2) hq (omega (arith, pow-suc 2 k)),
    )

pub pow_add : (j k : ℕ) → 2 ^ (j + k) ≡ 2 ^ j * 2 ^ k
pow_add j zero = ap (λ t. 2 ^ t) (add-zero j) ∙ omega arith
pow_add j (suc k) =
    ap (λ t. 2 ^ t) (omega arith)
    ∙ pow-suc 2 (j + k)
    ∙ omega (arith, pow_add j k, mul_two_pow (2 ^ j) k)

mul-sub_one : (m n : ℕ) → m * n - n ≡ (m - 1) * n
mul-sub_one zero n = omega arith
mul-sub_one (suc m) n =
    omega (arith, mul.suc m n, ap (λ (t : ℕ). t * n) (let e : suc m - 1 ≡ m = omega arith in e))

-- `x & ~(2^k - 1)` rounds a `j + k`-bit number down to a multiple of 2^k.
bit_and_round_sum : (j k x : ℕ) → x < 2 ^ (j + k) → bit_and x (2 ^ (j + k) - 2 ^ k) ≡ x - x % 2 ^ k
bit_and_round_sum j k x h =
    ap₂ bit_and split mask
    ∙ bit_and_high k j (x / 2 ^ k) (x % 2 ^ k) below (mod-lt x (two_pow_pos k))
    ∙ omega (arith, split)
  where
    split : x ≡ x / 2 ^ k * 2 ^ k + x % 2 ^ k
    split = sym (div-add-mod' x (2 ^ k))

    mask : 2 ^ (j + k) - 2 ^ k ≡ (2 ^ j - 1) * 2 ^ k
    mask = ap (λ t. t - 2 ^ k) (pow_add j k) ∙ mul-sub_one (2 ^ j) (2 ^ k)

    below : x / 2 ^ k < 2 ^ j
    below = (div-lt_iff_lt-mul (two_pow_pos k)).1 (rw pow_add at h)

pub bit_and_round : (k w x : ℕ) → k ≤ w → x < 2 ^ w → bit_and x (2 ^ w - 2 ^ k) ≡ x - x % 2 ^ k
bit_and_round k w x h hx =
    let e : w - k + k ≡ w = omega arith in
    subst (λ t. bit_and x (2 ^ t - 2 ^ k) ≡ x - x % 2 ^ k) e
      (bit_and_round_sum (w - k) k x (rw e hx))
