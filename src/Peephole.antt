-- ===== src/Peephole.antt =====
-- src/backend/x86_64/PeepholeX86.hpp: `mov rax, 0` becomes `xor eax, eax` and eight `nop`s.
pub mod Clean
use lsm_toolchain.Prelude.{
  ℕ, zero, suc, ◌-◌, Bool, true, false, ◌&&◌, ◌==◌, ltb, List, [], ◌∷◌, if◌then◌else◌, length,
}

-- whether the bytes of a pattern come next
abbrev pub starts : List ℕ → List ℕ → Bool
starts [] xs = true
starts (p ∷ ps) [] = false
starts (p ∷ ps) (x ∷ xs) = (x == p) && starts ps xs

abbrev pub mov_zero : List ℕ
mov_zero = 0x48 ∷ 0xb8 ∷ 0 ∷ 0 ∷ 0 ∷ 0 ∷ 0 ∷ 0 ∷ 0 ∷ 0 ∷ []

abbrev pub xor_nops : List ℕ
xor_nops = 0x31 ∷ 0xc0 ∷ 0x90 ∷ 0x90 ∷ 0x90 ∷ 0x90 ∷ 0x90 ∷ 0x90 ∷ 0x90 ∷ 0x90 ∷ []

-- the assignments to the bytes from the current one on
abbrev pub overwrite : List ℕ → List ℕ → List ℕ
overwrite [] xs = xs
overwrite (p ∷ ps) [] = []
overwrite (p ∷ ps) (x ∷ xs) = p ∷ overwrite ps xs

-- The loop over `n` positions, the first of which is at the head of the list.
unfoldable pub pass : ℕ → List ℕ → List ℕ
pass zero xs = xs
pass (suc n) [] = []
pass (suc n) (x ∷ xs) =
    let kept = pass n xs in
    let patched =
      pass n (overwrite (0xc0 ∷ 0x90 ∷ 0x90 ∷ 0x90 ∷ 0x90 ∷ 0x90 ∷ 0x90 ∷ 0x90 ∷ 0x90 ∷ []) xs) in
    if starts mov_zero (x ∷ xs) then 0x31 ∷ patched else x ∷ kept

unfoldable pub optimize : List ℕ → List ℕ
unfolding pass
optimize code = if ltb (length code) 10 then code else pass (length code - 9) code
