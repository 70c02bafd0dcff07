-- ===== src/Lexer/Cursor.antt =====
-- src/frontend/lexer/Lexer.cpp: the position in the source, and the loops that move it.
-- `rest` is the source from `pos` on.
use lsm_toolchain.Prelude.{
  ℕ, zero, suc, Option, none, some, length, ◌+◌, Bool, true, false, not, ◌&&◌, ◌==◌, List, [], ◌∷◌,
  if◌then◌else◌,
}
use lsm_toolchain.Lexer.Chars.{is_space}

pub record Cursor : Type 0 where
  pub rest : List ℕ
  pub pos : ℕ
  pub line : ℕ
  pub col : ℕ
  pub err : Bool

abbrev pub start_of : List ℕ → Cursor
start_of src = record { rest = src; pos = 0; line = 1; col = 1; err = false }

abbrev pub first : List ℕ → ℕ
first [] = 0
first (c ∷ cs) = c

abbrev pub second : List ℕ → ℕ
second [] = 0
second (c ∷ cs) = first cs

abbrev pub tail : List ℕ → List ℕ
tail [] = []
tail (c ∷ cs) = cs

abbrev pub peek : Cursor → ℕ
peek k = first k.rest

abbrev pub peek_next : Cursor → ℕ
peek_next k = second k.rest

-- the cursor after `advance`; what it returns is `peek`
unfoldable pub advance : Cursor → Cursor
advance k =
    if peek k == b'\n'
    then record k { rest = tail k.rest; pos = k.pos + 1; line = k.line + 1; col = 1 }
    else record k { rest = tail k.rest; pos = k.pos + 1; col = k.col + 1 }

unfoldable pub error : Cursor → Cursor
error k = record k { err = true }

-- `while (going(peek()))  advance();` over the rest of the source, for a test that is false at
-- its end
unfoldable pub advance_while : (ℕ → Bool) → List ℕ → Cursor → Cursor
advance_while going [] k = k
advance_while going (c ∷ cs) k =
    let more = advance_while going cs (advance k) in if going c then more else k

-- The inside of a comment up to its end.
unfoldable pub skip_block : List ℕ → Cursor → Cursor
unfolding error
skip_block [] k = error k
skip_block (c ∷ cs) k =
    let more = skip_block cs (advance k) in
    if c == 0
    then error k
    else if (c == b'*') && (first cs == b'/')
    then advance (advance k)
    else more

-- `peek() != '\n' && peek() != '\0'`
abbrev pub in_line : ℕ → Bool
in_line c = not (c == b'\n') && not (c == 0)

-- one round of `skipWhitespaceAndComments`, or `none` at its `break`
unfoldable pub skip_round : Cursor → Option Cursor
unfolding advance advance_while skip_block
skip_round k =
    if is_space (peek k)
    then some (advance k)
    else if (peek k == b'/') && (peek_next k == b'/')
    then some (advance_while in_line k.rest k)
    else if (peek k == b'/') && (peek_next k == b'*')
    then some (skip_block (tail (tail k.rest)) (advance (advance k)))
    else none

unfoldable pub skip_rounds : ℕ → Cursor → Cursor
unfolding skip_round
skip_rounds zero k = k
skip_rounds (suc fuel) k = elim (skip_round k) [ none ↦ k | some l ↦ skip_rounds fuel l ]

-- a round takes at least one byte, so the fuel is enough
unfoldable pub skip_blanks : Cursor → Cursor
unfolding skip_rounds
skip_blanks k = skip_rounds (suc (length k.rest)) k
