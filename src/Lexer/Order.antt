-- ===== src/Lexer/Order.antt =====
-- src/frontend/lexer/Lexer.cpp: tokens come in the order of the source and do not overlap.
use lsm_toolchain.Prelude.{
  ℕ, zero, suc, ◌+◌, ◌≤◌, if◌then◌else◌, inl, inr, List, [], ◌∷◌, ◌++◌, length, length-append,
  arith, Option, none, some,
}
use lsm_toolchain.Lexer.Token.{TokenType, Token}
use lsm_toolchain.Lexer.Cursor.{Cursor, start_of, skip_blanks}
use lsm_toolchain.Lexer.Tokenize.{token_at, next_token, push, tokens_from, tokenize}
use lsm_toolchain.Lexer.Blanks.{Moved, Moved-skip_blanks}
use lsm_toolchain.Lexer.Spelling.{Yields, is_quoted}
use lsm_toolchain.Lexer.Lexemes.{Yields-next, rest-cases}

-- where the bytes of a token end: those of a string stand behind a quote
abbrev pub end_of : Token → ℕ
end_of t = t.offset + (if is_quoted t.type then 1 else 0) + length t.value

-- Each token starts where the bytes of the one before it end, or later.
abbrev pub InOrder : ℕ → List Token → Type 0
InOrder p [] = Unit
InOrder p (t ∷ ts) = (p ≤ t.offset) × InOrder (end_of t) ts

InOrder-sooner : (p q : ℕ) (ts : List Token) → p ≤ q → InOrder q ts → InOrder p ts
InOrder-sooner p q [] le h = tt
InOrder-sooner p q (t ∷ ts) le h = (omega (arith, h.0), h.1)

Moved-le : (k l : Cursor) → Moved k l → k.pos ≤ l.pos
Moved-le k l (w, h) = omega (arith, h.pos)

-- the tokens in front of a later position, which one more token may take
abbrev InOrderTo : ℕ → List Token × Cursor → Type 0
InOrderTo p (ts, k) = (t : Token) → k.pos ≤ t.offset → InOrder p (ts ++ (t ∷ []))

InOrder-push :
    (p : ℕ) (k l : Cursor) (o : Option Token) (out : List Token × Cursor)
    → p ≤ k.pos
    → Yields k (o, l)
    → InOrderTo l.pos out
    → InOrderTo p (push o out)
InOrder-push p k l none (ts, m) le (c, w, h) later t last =
    InOrder-sooner p l.pos (ts ++ (t ∷ [])) (omega (arith, h.pos)) (later t last)
InOrder-push p k l (some s) (ts, m) le h later t last = (
  omega (arith, h.offset),
  InOrder-sooner (end_of s) l.pos (ts ++ (t ∷ []))
      (omega (
        arith,
        h.offset,
        h.over.pos,
        h.quoted,
        length-append h.opening (s.value ++ h.closing),
        length-append s.value h.closing,
      ))
      (later t last),
)

InOrder-from : (fuel : ℕ) (k : Cursor) → InOrderTo k.pos (tokens_from fuel k)
unfolding tokens_from
InOrder-from zero k = λ t last. (last, tt)
InOrder-from (suc fuel) k = elim (rest-cases k) [
  | inl (e, stop) ↦ rw stop (λ t last. (last, tt))
  | inr (_, _, _, go) ↦
      let s = skip_blanks k in
      let le = Moved-le k s (Moved-skip_blanks k) in
      elim (rest-cases s) [
        | inl (e, stop) ↦ rw (go, stop) (λ t last. (omega (arith, last), tt))
        | inr (c, cs, e, on) ↦
            let l = (next_token s).1 in
            rw (go, on)
              (InOrder-push k.pos s l (next_token s).0 (tokens_from fuel l) le
                (Yields-next s c cs e) (InOrder-from fuel l))
      ]
]

-- The tokens that `tokenize` returns, the last one included, come in the order of the source:
-- each starts where the bytes of the one before it end, or later, where a string's bytes stand one
-- further on than its offset, behind the quote.
pub tokenize_ordered : (src : List ℕ) → InOrder 0 (tokenize src).0
unfolding tokenize
tokenize_ordered src =
    let k = (tokens_from (suc (length src)) (start_of src)).1 in
    InOrder-from (suc (length src)) (start_of src) (token_at k TokenType.eof []) (omega arith)
