-- ===== src/Tests/Lexer.antt =====
-- The theorems about src/frontend/lexer at a small source.
use lsm_toolchain.Prelude.{ℕ, ◌≡◌, refl, none, List, [], ◌∷◌, All, map}
use lsm_toolchain.Lexer.Token.{TokenType}
use lsm_toolchain.Lexer.Chars.{bytes, is_space, is_alpha, is_alnum, is_digit, is_xdigit}
use lsm_toolchain.Lexer.Keywords.{word_type}
use lsm_toolchain.Lexer.Cursor.{start_of, skip_round, skip_blanks}
use lsm_toolchain.Lexer.Tokenize.{tokenize}
use lsm_toolchain.Lexer.Blanks.{skip_blanks_ends}
use lsm_toolchain.Lexer.Lexemes.{Lexeme, tokenize-Lexeme, tokenize_reads}
use lsm_toolchain.Lexer.Order.{InOrder, tokenize_ordered}

abbrev sample : List ℕ
sample = bytes "let x /* c */ = 0x1f; // end\nif a1 >= 2.5 { s = \"q\\\"\" }..="

sample-types :
    map (λ t. t.type) (tokenize sample).0
    ≡ TokenType.let_ ∷ TokenType.ident ∷ TokenType.eq ∷ TokenType.int ∷ TokenType.semicolon
      ∷ TokenType.if ∷ TokenType.ident ∷ TokenType.greater_eq ∷ TokenType.float ∷ TokenType.l_brace
      ∷ TokenType.ident ∷ TokenType.eq ∷ TokenType.string ∷ TokenType.r_brace
      ∷ TokenType.range_inclusive ∷ TokenType.eof ∷ []
unfolding tokenize skip_blanks is_space is_alpha is_alnum is_digit is_xdigit word_type
sample-types = refl

sample-offsets :
    map (λ t. t.offset) (tokenize sample).0
    ≡ 0 ∷ 4 ∷ 14 ∷ 16 ∷ 20 ∷ 29 ∷ 32 ∷ 35 ∷ 38 ∷ 42 ∷ 44 ∷ 46 ∷ 48 ∷ 54 ∷ 55 ∷ 58 ∷ []
unfolding tokenize skip_blanks is_space is_alpha is_alnum is_digit is_xdigit
sample-offsets = refl

tokenize-Lexeme_example : All (Lexeme sample) (tokenize sample).0
tokenize-Lexeme_example = tokenize-Lexeme sample

tokenize_reads_example : (tokenize sample).1.pos ≡ 58
tokenize_reads_example = tokenize_reads sample

tokenize_ordered_example : InOrder 0 (tokenize sample).0
tokenize_ordered_example = tokenize_ordered sample

skip_blanks_ends_example : skip_round (skip_blanks (start_of sample)) ≡ none
skip_blanks_ends_example = skip_blanks_ends (start_of sample)
