-- ===== src/Elf/Fields.antt =====
-- src/backend/linker/ELFBuilder.cpp: reading a field back.
use lsm_toolchain.Prelude.{
  ℕ, zero, suc, ◌+◌, ◌*◌, ◌/◌, ◌^◌, ◌<◌, ◌≡◌, refl, sym, ap, ◌∙◌, List, [], ◌∷◌, ◌++◌, length, take,
  arith,
}
use lsm_toolchain.Elf.{le}

abbrev pub drop : ℕ → List ℕ → List ℕ
drop zero xs = xs
drop (suc n) [] = []
drop (suc n) (x ∷ xs) = drop n xs

-- the number in the first `w` bytes
abbrev pub read : ℕ → List ℕ → ℕ
read zero xs = 0
read (suc w) [] = 0
read (suc w) (x ∷ xs) = x + 256 * read w xs

pub drop-append : (xs ys : List ℕ) → drop (length xs) (xs ++ ys) ≡ ys
drop-append [] ys = refl
drop-append (x ∷ xs) ys = drop-append xs ys

pub take-append : (xs ys : List ℕ) → take (length xs) (xs ++ ys) ≡ xs
take-append [] ys = refl
take-append (x ∷ xs) ys = ap (λ v. x ∷ v) (take-append xs ys)

pub drop_at : (file u v : List ℕ) (k : ℕ) → file ≡ u ++ v → k ≡ length u → drop k file ≡ v
drop_at file u v k e n = rw (e, n) (drop-append u v)

pub length-le : (w n : ℕ) → length (le w n) ≡ w
length-le zero n = refl
length-le (suc w) n = ap suc (length-le w (n / 256))

-- what a field of four bytes holds
pub read-le_4 : (n : ℕ) (rest : List ℕ) → n < 2 ^ 32 → read 4 (le 4 n ++ rest) ≡ n
read-le_4 n rest lt = omega arith

pub read-le_2 : (n : ℕ) (rest : List ℕ) → n < 2 ^ 16 → read 2 (le 2 n ++ rest) ≡ n
read-le_2 n rest lt = omega arith

pub drop_add : (k j : ℕ) (xs : List ℕ) → drop (k + j) xs ≡ drop j (drop k xs)
drop_add zero j xs = ap (λ n. drop n xs) (omega arith)
drop_add (suc k) j [] = ap (λ n. drop n []) same ∙ sym (drop_nil j)
  where
    same : suc k + j ≡ suc (k + j)
    same = omega arith

    drop_nil : (j : ℕ) → drop j [] ≡ []
    drop_nil zero = refl
    drop_nil (suc j) = refl
drop_add (suc k) j (x ∷ xs) = ap (λ n. drop n (x ∷ xs)) same ∙ drop_add k j xs
  where
    same : suc k + j ≡ suc (k + j)
    same = omega arith
