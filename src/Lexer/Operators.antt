-- ===== src/Lexer/Operators.antt =====
-- src/frontend/lexer/Lexer.cpp: the `switch` on operators and punctuation, as a table.
use lsm_toolchain.Prelude.{ℕ, List, [], ◌∷◌}
use lsm_toolchain.Lexer.Token.{TokenType}

-- The type of a byte that stands alone, and the types of the pairs that it starts, in the order
-- of the calls of `match`.
pub record Operator : Type 0 where
  pub head : ℕ
  pub pairs : List (ℕ × TokenType)
  pub alone : TokenType

abbrev pub single : ℕ → TokenType → Operator
single c t = record { head = c; pairs = []; alone = t }

abbrev pub operators : List Operator
operators =
    single b';' TokenType.semicolon
    ∷ record {
      head = b'?';
      pairs = (b'.', TokenType.question_safe) ∷ [];
      alone = TokenType.question;
    }
    ∷ single b':' TokenType.colon
    ∷ record {
      head = b'=';
      pairs = (b'>', TokenType.fat_arrow) ∷ (b'=', TokenType.eq_eq) ∷ [];
      alone = TokenType.eq;
    }
    ∷ record {
      head = b'-';
      pairs =
          (b'>', TokenType.thin_arrow)
          ∷ (b'=', TokenType.minus_eq)
          ∷ (b'-', TokenType.minus_minus)
          ∷ [];
      alone = TokenType.minus;
    }
    ∷ record {
      head = b'<';
      pairs =
          (b'-', TokenType.chan_send_recv) ∷ (b'=', TokenType.less_eq) ∷ (b'<', TokenType.shl) ∷ [];
      alone = TokenType.less;
    }
    ∷ record {
      head = b'>';
      pairs = (b'=', TokenType.greater_eq) ∷ (b'>', TokenType.shr) ∷ [];
      alone = TokenType.greater;
    }
    ∷ record { head = b'&'; pairs = (b'&', TokenType.amp_amp) ∷ []; alone = TokenType.amp }
    ∷ record { head = b'|'; pairs = (b'|', TokenType.pipe_pipe) ∷ []; alone = TokenType.pipe }
    ∷ record { head = b'!'; pairs = (b'=', TokenType.not_eq) ∷ []; alone = TokenType.not }
    ∷ record {
      head = b'+';
      pairs = (b'=', TokenType.plus_eq) ∷ (b'+', TokenType.plus_plus) ∷ [];
      alone = TokenType.plus;
    }
    ∷ record { head = b'*'; pairs = (b'=', TokenType.star_eq) ∷ []; alone = TokenType.star }
    ∷ record { head = b'/'; pairs = (b'=', TokenType.slash_eq) ∷ []; alone = TokenType.slash }
    ∷ single b'%' TokenType.percent
    ∷ single b'^' TokenType.caret
    ∷ single b'~' TokenType.tilde
    ∷ single b'(' TokenType.l_paren
    ∷ single b')' TokenType.r_paren
    ∷ single b'{' TokenType.l_brace
    ∷ single b'}' TokenType.r_brace
    ∷ single b'[' TokenType.l_bracket
    ∷ single b']' TokenType.r_bracket
    ∷ single b',' TokenType.comma
    ∷ single b'#' TokenType.hash
    ∷ single b'@' TokenType.at
    ∷ []
