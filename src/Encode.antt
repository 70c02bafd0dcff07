-- ===== src/Encode.antt =====
-- src/backend: what the machine-code encoders share. The bytes come with the offsets of the labels
-- and with the places whose jump distance is filled in when all code is there.
pub mod Bytes
pub mod Patching
pub mod Growing
pub use lsm_toolchain.Prelude.{entry}
use lsm_toolchain.Prelude.{
  ℕ, zero, suc, ◌+◌, Bool, List, [], ◌∷◌, ◌++◌, String, Option, none, some, str_eq, if◌then◌else◌,
  length,
}

-- `JumpPatch` and `ARM64BranchPatch`; the former is never conditional.
pub record Patch : Type 0 where
  pub location : ℕ
  pub label : String
  pub conditional : Bool

pub record Code : Type 0 where
  pub bytes : List ℕ
  pub blocks : List (String × ℕ)
  pub patches : List Patch

unfoldable pub append_bytes : List ℕ → Code → Code
append_bytes bs c = record c { bytes = c.bytes ++ bs }

-- `blockOffsets[label] = code.size()`
unfoldable pub mark : String → Code → Code
mark l c = record c { blocks = (l, length c.bytes) ∷ c.blocks }

-- the `push_back` of a patch, and the four bytes that it will change
unfoldable pub append_jump : String → Bool → List ℕ → Code → Code
append_jump l cond bs c = record c {
  bytes = c.bytes ++ bs;
  patches = c.patches ++ (record { location = length c.bytes; label = l; conditional = cond } ∷ []);
}

abbrev pub write : List ℕ → List ℕ → List ℕ
write [] xs = xs
write (b ∷ bs) [] = []
write (b ∷ bs) (x ∷ xs) = b ∷ write bs xs

-- `code[k + i] = bs[i]` for each `i`
unfoldable pub write_at : ℕ → List ℕ → List ℕ → List ℕ
write_at zero bs xs = write bs xs
write_at (suc k) bs [] = []
write_at (suc k) bs (x ∷ xs) = x ∷ write_at k bs xs

-- The final loop over the patches. `field` gives the new bytes at a patch's place, of the target
-- and of the code so far.
module _ (field : Patch → ℕ → List ℕ → List ℕ) (blocks : List (String × ℕ)) where
  unfoldable pub patch_one : Patch → List ℕ → List ℕ
  patch_one p code = elim (entry p.label blocks) [
    | none ↦ code
    | some target ↦ write_at p.location (field p target code) code
  ]

  unfoldable pub patch_all : List Patch → List ℕ → List ℕ
  unfolding patch_one
  patch_all [] code = code
  patch_all (p ∷ ps) code = patch_all ps (patch_one p code)

-- the first two steps, then the third, on the state of an encoder
infixl 5 ◌>>◌
unfoldable pub ◌>>◌ {ℓ} : {S : Type ℓ} → (S → S) → (S → S) → S → S
(m >> k) s = k (m s)

unfoldable pub when {ℓ} : {S : Type ℓ} → Bool → (S → S) → S → S
when b m s = if b then m s else s
