-- ===== src/Lexer/Tokenize.antt =====
-- src/frontend/lexer/Lexer.cpp: `tokenize`.
-- The text of a token, a `string_view` in the source, is the list of its bytes.
use lsm_toolchain.Prelude.{
  ℕ, zero, suc, ◌-◌, Bool, true, false, not, ◌||◌, ◌&&◌, ◌==◌, Option, none, some, List, [], ◌∷◌,
  ◌++◌, if◌then◌else◌, length, take,
}
use lsm_toolchain.Lexer.Token.{TokenType, Token}
use lsm_toolchain.Lexer.Chars.{is_alpha, is_alnum, is_digit, is_xdigit}
use lsm_toolchain.Lexer.Keywords.{keywords, word_type}
use lsm_toolchain.Lexer.Operators.{Operator, operators}
use lsm_toolchain.Lexer.Cursor.{
  Cursor, start_of, first, tail, peek, peek_next, advance, error, advance_while, skip_blanks,
}

-- A token that starts at the first cursor.
abbrev pub token_at : Cursor → TokenType → List ℕ → Token
token_at k t v = record { type = t; value = v; line = k.line; col = k.col; offset = k.pos }

-- `string_view(&src[start], pos - start)`
abbrev pub slice : Cursor → Cursor → List ℕ
slice k l = take (l.pos - k.pos) k.rest

unfoldable pub word_token : Cursor → Token × Cursor
word_token k =
    let l = advance_while (λ c. is_alnum c || (c == b'_')) k.rest k in
    let id = slice k l in (token_at k (word_type keywords id) id, l)

unfoldable pub hex_token : Cursor → Token × Cursor
hex_token k =
    let l = advance_while is_xdigit (tail (tail k.rest)) (advance (advance k)) in
    (token_at k TokenType.int (slice k l), l)

-- the loop over the digits and the points of a number
unfoldable pub number_loop : Bool → List ℕ → Cursor → Bool × Cursor
number_loop has_dot [] k = (has_dot, k)
number_loop has_dot (c ∷ cs) k =
    let more = number_loop (has_dot || (c == b'.')) cs (advance k) in
    if not (is_digit c || (c == b'.')) || ((c == b'.') && (first cs == b'.'))
    then (has_dot, k)
    else if (c == b'.') && has_dot
    then (has_dot, error k)
    else more

unfoldable pub number_token : Cursor → Token × Cursor
unfolding number_loop
number_token k =
    let (has_dot, l) = number_loop false k.rest k in
    (token_at k (if has_dot then TokenType.float else TokenType.int) (slice k l), l)

-- The loop over the inside of a string, and whether it found the closing quote. `escaped`: the
-- byte comes after a backslash.
unfoldable pub string_loop : Bool → List ℕ → Cursor → Bool × Cursor
string_loop escaped [] k = (false, k)
string_loop escaped (c ∷ cs) k =
    let more = string_loop (not escaped && (c == b'\\')) cs (advance k) in
    if (c == 0) || (not escaped && (c == b'\n'))
    then (false, k)
    else if not escaped && (c == b'"')
    then (true, k)
    else more

unfoldable pub string_token : Cursor → Token × Cursor
unfolding string_loop
string_token k =
    let (closed, l) = string_loop false (tail k.rest) (advance k) in
    (
      token_at k TokenType.string (take (l.pos - k.pos - 1) (tail k.rest)),
      if closed then advance l else error l,
    )

-- the tests of the next byte, for a token that starts at `k` with the byte `c`, after `advance`
unfoldable pub pair_token : Cursor → ℕ → List (ℕ × TokenType) → TokenType → Cursor → Token × Cursor
pair_token k c [] alone l = (token_at k alone (c ∷ []), l)
pair_token k c ((d, t) ∷ pairs) alone l =
    let later = pair_token k c pairs alone l in
    if peek l == d then (token_at k t (c ∷ d ∷ []), advance l) else later

unfoldable pub dot_token : Cursor → Cursor → Token × Cursor
dot_token k l =
    if peek l == b'.'
    then if peek (advance l) == b'='
      then (token_at k TokenType.range_inclusive (b'.' ∷ b'.' ∷ b'=' ∷ []), advance (advance l))
      else (token_at k TokenType.range (b'.' ∷ b'.' ∷ []), advance l)
    else (token_at k TokenType.dot (b'.' ∷ []), l)

-- the `switch`, over the part of the table that is left
unfoldable pub operator_token : List Operator → Cursor → Cursor → Option Token × Cursor
unfolding pair_token
operator_token [] k l = (none, error l)
operator_token (o ∷ os) k l =
    let later = operator_token os k l in
    let (t, m) = pair_token k o.head o.pairs o.alone l in
    if peek k == o.head then (some t, m) else later

abbrev pub found : Token × Cursor → Option Token × Cursor
found (t, k) = (some t, k)

-- one round of the loop, at a byte that is neither blank nor in a comment
unfoldable pub next_token : Cursor → Option Token × Cursor
unfolding word_token hex_token number_token string_token dot_token operator_token
next_token k =
    let c = peek k in
    if is_alpha c || (c == b'_')
    then found (word_token k)
    else if is_digit c || ((c == b'.') && is_digit (peek_next k))
    then if (c == b'0') && ((peek_next k == b'x') || (peek_next k == b'X'))
      then found (hex_token k)
      else found (number_token k)
    else if c == b'"'
    then found (string_token k)
    else if c == b'.'
    then found (dot_token k (advance k))
    else operator_token operators k (advance k)

abbrev pub at_end : Cursor → Bool
at_end k = elim k.rest [ [] ↦ true | c ∷ cs ↦ false ]

abbrev pub push : Option Token → List Token × Cursor → List Token × Cursor
push none out = out
push (some t) (ts, k) = (t ∷ ts, k)

unfoldable pub tokens_from : ℕ → Cursor → List Token × Cursor
unfolding next_token
tokens_from zero k = ([], k)
tokens_from (suc fuel) k =
    let s = skip_blanks k in
    let (t, l) = next_token s in
    let more = push t (tokens_from fuel l) in
    if at_end k then ([], k) else if at_end s then ([], s) else more

-- A round takes at least one byte. The result is the tokens and the final cursor, whose `err` is
-- `hasErrors()`.
unfoldable pub tokenize : List ℕ → List Token × Cursor
unfolding tokens_from
tokenize src =
    let (ts, k) = tokens_from (suc (length src)) (start_of src) in
    (ts ++ (token_at k TokenType.eof [] ∷ []), k)
