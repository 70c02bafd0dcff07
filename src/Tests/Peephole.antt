-- ===== src/Tests/Peephole.antt =====
-- The theorem about src/backend/x86_64/PeepholeX86.hpp at a small input.
use lsm_toolchain.Prelude.{ℕ, ◌≡◌, refl, false, List, [], ◌∷◌, ◌++◌, length}
use lsm_toolchain.Peephole.{optimize, mov_zero, xor_nops}
use lsm_toolchain.Peephole.Clean.{any_match, optimize_clean}

abbrev code : List ℕ
code = 0x55 ∷ (mov_zero ++ (0x48 ∷ (mov_zero ++ (0xc3 ∷ []))))

optimize-code : optimize code ≡ 0x55 ∷ (xor_nops ++ (0x48 ∷ (xor_nops ++ (0xc3 ∷ []))))
unfolding optimize
optimize-code = refl

optimize_clean_example : (length (optimize code) ≡ 23) × (any_match (optimize code) ≡ false)
optimize_clean_example = optimize_clean code
