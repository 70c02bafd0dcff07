-- ===== src/Encode/Bytes.antt =====
-- src/backend: bytes of a code buffer, read by position.
use lsm_toolchain.Prelude.{
  ℕ, zero, suc, ◌+◌, ◌*◌, ◌≤◌, ◌<◌, ◌≡◌, refl, ap, ◌∙◌, ◌⊎◌, inl, inr, List, [], ◌∷◌, length,
  get_or, arith, ◌++◌,
}
use lsm_toolchain.Encode.{write, write_at}

abbrev pub byte_at : List ℕ → ℕ → ℕ
byte_at xs i = get_or xs i 0

-- the 32-bit little-endian word at a position
unfoldable pub word_at : List ℕ → ℕ → ℕ
word_at xs k =
    byte_at xs k
    + 256 * byte_at xs (k + 1)
    + 65536 * byte_at xs (k + 2)
    + 16777216 * byte_at xs (k + 3)

length-write : (bs xs : List ℕ) → length (write bs xs) ≡ length xs
length-write [] xs = refl
length-write (b ∷ bs) [] = refl
length-write (b ∷ bs) (x ∷ xs) = ap suc (length-write bs xs)

pub length-write_at : (k : ℕ) (bs xs : List ℕ) → length (write_at k bs xs) ≡ length xs
unfolding write_at
length-write_at zero bs xs = length-write bs xs
length-write_at (suc k) bs [] = refl
length-write_at (suc k) bs (x ∷ xs) = ap suc (length-write_at k bs xs)

write-inside :
    (i : ℕ) (bs xs : List ℕ)
    → i < length bs
    → length bs ≤ length xs
    → byte_at (write bs xs) i ≡ byte_at bs i
write-inside i [] xs lt le = absurd (omega arith)
write-inside i (b ∷ bs) [] lt le = absurd (omega arith)
write-inside zero (b ∷ bs) (x ∷ xs) lt le = refl
write-inside (suc i) (b ∷ bs) (x ∷ xs) lt le = write-inside i bs xs (omega arith) (omega arith)

write-outside : (i : ℕ) (bs xs : List ℕ) → length bs ≤ i → byte_at (write bs xs) i ≡ byte_at xs i
write-outside i [] xs le = refl
write-outside i (b ∷ bs) [] le = refl
write-outside zero (b ∷ bs) (x ∷ xs) le = absurd (omega arith)
write-outside (suc i) (b ∷ bs) (x ∷ xs) le = write-outside i bs xs (omega arith)

pub write_at-inside :
    (k i : ℕ) (bs xs : List ℕ)
    → i < length bs
    → k + length bs ≤ length xs
    → byte_at (write_at k bs xs) (k + i) ≡ byte_at bs i
unfolding write_at
write_at-inside zero i bs xs lt le =
    ap (byte_at (write bs xs)) (omega arith) ∙ write-inside i bs xs lt (omega arith)
write_at-inside (suc k) i bs [] lt le = absurd (omega arith)
write_at-inside (suc k) i bs (x ∷ xs) lt le =
    let same : suc k + i ≡ suc (k + i) = omega arith in
    ap (byte_at (x ∷ write_at k bs xs)) same ∙ write_at-inside k i bs xs lt (omega arith)

pub write_at-outside :
    (k i : ℕ) (bs xs : List ℕ)
    → (i < k) ⊎ (k + length bs ≤ i)
    → byte_at (write_at k bs xs) i ≡ byte_at xs i
unfolding write_at
write_at-outside zero i bs xs (inl lt) = absurd (omega arith)
write_at-outside zero i bs xs (inr le) = write-outside i bs xs (omega arith)
write_at-outside (suc k) i bs [] h = refl
write_at-outside (suc k) zero bs (x ∷ xs) h = refl
write_at-outside (suc k) (suc i) bs (x ∷ xs) (inl lt) =
    write_at-outside k i bs xs (inl (omega arith))
write_at-outside (suc k) (suc i) bs (x ∷ xs) (inr le) =
    write_at-outside k i bs xs (inr (omega arith))

-- a word of which no byte is written
pub word_at-outside :
    (k j : ℕ) (bs xs : List ℕ)
    → (j + 4 ≤ k) ⊎ (k + length bs ≤ j)
    → word_at (write_at k bs xs) j ≡ word_at xs j
unfolding word_at
word_at-outside k j bs xs (inl le) = omega (
  arith,
  write_at-outside k j bs xs (inl (omega arith)),
  write_at-outside k (j + 1) bs xs (inl (omega arith)),
  write_at-outside k (j + 2) bs xs (inl (omega arith)),
  write_at-outside k (j + 3) bs xs (inl (omega arith)),
)
word_at-outside k j bs xs (inr le) = omega (
  arith,
  write_at-outside k j bs xs (inr (omega arith)),
  write_at-outside k (j + 1) bs xs (inr (omega arith)),
  write_at-outside k (j + 2) bs xs (inr (omega arith)),
  write_at-outside k (j + 3) bs xs (inr (omega arith)),
)

-- a word that is written
pub word_at-inside :
    (k a b c d : ℕ) (xs : List ℕ)
    → k + 4 ≤ length xs
    → word_at (write_at k (a ∷ b ∷ c ∷ d ∷ []) xs) k ≡ a + 256 * b + 65536 * c + 16777216 * d
unfolding word_at
word_at-inside k a b c d xs le =
    let bs : List ℕ = a ∷ b ∷ c ∷ d ∷ [] in
    let first : byte_at (write_at k bs xs) k ≡ a =
      ap (byte_at (write_at k bs xs)) (omega arith)
      ∙ write_at-inside k 0 bs xs (omega arith) (omega arith) in
    omega (
      arith,
      first,
      write_at-inside k 1 bs xs (omega arith) (omega arith),
      write_at-inside k 2 bs xs (omega arith) (omega arith),
      write_at-inside k 3 bs xs (omega arith) (omega arith),
    )

byte_at-append_left : (xs ys : List ℕ) (i : ℕ) → i < length xs → byte_at (xs ++ ys) i ≡ byte_at xs i
byte_at-append_left [] ys i lt = absurd (omega arith)
byte_at-append_left (x ∷ xs) ys zero lt = refl
byte_at-append_left (x ∷ xs) ys (suc i) lt = byte_at-append_left xs ys i (omega arith)

byte_at-append_right : (xs ys : List ℕ) (i : ℕ) → byte_at (xs ++ ys) (length xs + i) ≡ byte_at ys i
byte_at-append_right [] ys i = ap (byte_at ys) (omega arith)
byte_at-append_right (x ∷ xs) ys i =
    let same : length (x ∷ xs) + i ≡ suc (length xs + i) = omega arith in
    ap (byte_at (x ∷ (xs ++ ys))) same ∙ byte_at-append_right xs ys i

-- a word in front of what is appended
pub word_at-append :
    (k : ℕ) (xs ys : List ℕ) → k + 4 ≤ length xs → word_at (xs ++ ys) k ≡ word_at xs k
unfolding word_at
word_at-append k xs ys le = omega (
  arith,
  byte_at-append_left xs ys k (omega arith),
  byte_at-append_left xs ys (k + 1) (omega arith),
  byte_at-append_left xs ys (k + 2) (omega arith),
  byte_at-append_left xs ys (k + 3) (omega arith),
)

-- the word that is appended
pub word_at-end : (xs ys : List ℕ) → word_at (xs ++ ys) (length xs) ≡ word_at ys 0
unfolding word_at
word_at-end xs ys =
    let first : byte_at (xs ++ ys) (length xs) ≡ byte_at ys 0 =
      ap (byte_at (xs ++ ys)) (omega arith) ∙ byte_at-append_right xs ys 0 in
    omega (
      arith,
      first,
      byte_at-append_right xs ys 1,
      byte_at-append_right xs ys 2,
      byte_at-append_right xs ys 3,
    )
