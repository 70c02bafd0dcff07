-- ===== src/Lexer/Chars.antt =====
-- The character tests of the lexer, on bytes. Outside ASCII the source's calls of `isalpha` and its
-- like have a negative argument, on which C defines nothing; they are false here.
use lsm_toolchain.Prelude.{ℕ, Bool, ◌||◌, ◌&&◌, ◌==◌, leb, String}
use mathlib.Core.List.{List}
use Prim.Native.Char.{code}

abbrev pub bytes : String → List ℕ
bytes String.[] = List.[]
bytes (String.◌∷◌ c s) = List.◌∷◌ (code c) (bytes s)

abbrev pub between : ℕ → ℕ → ℕ → Bool
between lo hi c = leb lo c && leb c hi

unfoldable pub is_space : ℕ → Bool
is_space c = (c == 32) || between 9 13 c

unfoldable pub is_digit : ℕ → Bool
is_digit c = between b'0' b'9' c

unfoldable pub is_xdigit : ℕ → Bool
unfolding is_digit
is_xdigit c = is_digit c || between b'a' b'f' c || between b'A' b'F' c

unfoldable pub is_alpha : ℕ → Bool
is_alpha c = between b'a' b'z' c || between b'A' b'Z' c

unfoldable pub is_alnum : ℕ → Bool
unfolding is_alpha is_digit
is_alnum c = is_alpha c || is_digit c
