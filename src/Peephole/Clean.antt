-- ===== src/Peephole/Clean.antt =====
-- src/backend/x86_64/PeepholeX86.hpp: no instruction that the pass rewrites is left.
use lsm_toolchain.Prelude.{
  ℕ, zero, suc, ◌+◌, ◌-◌, ◌≤◌, ◌≡◌, ◌≢◌, refl, ap, ◌∙◌, Bool, true, false, ◌||◌, ltb, List, [], ◌∷◌,
  length, inl, inr, Bool-cases, All, arith,
}
use lsm_toolchain.Peephole.{starts, mov_zero, overwrite, pass, optimize}

-- whether `mov rax, 0` stands somewhere
abbrev pub any_match : List ℕ → Bool
any_match [] = false
any_match (x ∷ xs) = starts mov_zero (x ∷ xs) || any_match xs

length-overwrite : (ps xs : List ℕ) → length (overwrite ps xs) ≡ length xs
length-overwrite [] xs = refl
length-overwrite (p ∷ ps) [] = refl
length-overwrite (p ∷ ps) (x ∷ xs) = ap suc (length-overwrite ps xs)

abbrev tail_code : List ℕ
tail_code = 0xc0 ∷ 0x90 ∷ 0x90 ∷ 0x90 ∷ 0x90 ∷ 0x90 ∷ 0x90 ∷ 0x90 ∷ 0x90 ∷ []

length-pass : (n : ℕ) (xs : List ℕ) → length (pass n xs) ≡ length xs
unfolding pass
length-pass zero xs = refl
length-pass (suc n) [] = refl
length-pass (suc n) (x ∷ xs) = elim (Bool-cases (starts mov_zero (x ∷ xs))) [
  | inr keep ↦ rw keep (ap suc (length-pass n xs))
  | inl hit ↦
      rw hit (ap suc (length-pass n (overwrite tail_code xs) ∙ length-overwrite tail_code xs))
]

-- No byte of the pattern is the first byte that the pass writes.
starts-pass :
    (n : ℕ) (ps xs : List ℕ)
    → All (λ p. p ≢ 0x31) ps
    → starts ps (pass n xs) ≡ true
    → starts ps xs ≡ true
unfolding pass
starts-pass n [] xs ne h = refl
starts-pass zero (p ∷ ps) xs ne h = h
starts-pass (suc n) (p ∷ ps) [] ne h = h
starts-pass (suc n) (p ∷ ps) (x ∷ xs) ne h = elim (Bool-cases (starts mov_zero (x ∷ xs))) [
  | inl hit ↦ let now = rw hit at h in absurd (ground (arith, now, ne.0))
  | inr keep ↦
      let now = rw keep at h in let later = starts-pass n ps xs ne.1 in ground (arith, now, later)
]

short : (xs : List ℕ) → length xs ≤ 9 → starts mov_zero xs ≡ false
short xs le = elim (Bool-cases (starts mov_zero xs)) [
  | inr e ↦ e
  | inl e ↦ absurd (omega (arith, long mov_zero xs e, le))
]
  where
    long : (ps xs : List ℕ) → starts ps xs ≡ true → length ps ≤ length xs
    long [] xs h = omega arith
    long (p ∷ ps) [] h = cc
    long (p ∷ ps) (x ∷ xs) h = let rest = long ps xs in ground (arith, h, rest)

short-any_match : (xs : List ℕ) → length xs ≤ 9 → any_match xs ≡ false
short-any_match [] le = refl
short-any_match (x ∷ xs) le = rw (short (x ∷ xs) le) (short-any_match xs (omega arith))

any_match-pass : (n : ℕ) (xs : List ℕ) → length xs ≤ n + 9 → any_match (pass n xs) ≡ false
unfolding pass
any_match-pass zero xs le = short-any_match xs (omega arith)
any_match-pass (suc n) [] le = refl
any_match-pass (suc n) (x ∷ xs) le = elim (Bool-cases (starts mov_zero (x ∷ xs))) [
  | inl hit ↦
      rw hit
        (any_match-pass n (overwrite tail_code xs) (omega (arith, length-overwrite tail_code xs)))
  | inr keep ↦ elim (Bool-cases (starts mov_zero (x ∷ pass n xs))) [
    | inr none_ ↦ rw (keep, none_) (any_match-pass n xs (omega arith))
    | inl new ↦
        let old = starts-pass n (0xb8 ∷ 0 ∷ 0 ∷ 0 ∷ 0 ∷ 0 ∷ 0 ∷ 0 ∷ 0 ∷ []) xs (ground arith) in
        absurd (ground (arith, keep, new, old))
  ]
]

-- The code that the pass returns is as long as the code that it was given, and no `mov rax, 0`
-- stands in it at any byte.
pub optimize_clean :
    (code : List ℕ) → (length (optimize code) ≡ length code) × (any_match (optimize code) ≡ false)
unfolding optimize
optimize_clean code = elim (Bool-cases (ltb (length code) 10)) [
  | inl few ↦ rw few (refl, short-any_match code (ground (arith, few)))
  | inr many ↦
      rw many
        (length-pass (length code - 9) code, any_match-pass (length code - 9) code (omega arith))
]
