-- ===== src/Lexer/Lexemes.antt =====
-- src/frontend/lexer/Lexer.cpp: every token is found in the source where it says it is.
use mathlib.Core.List.{append-nil, append_assoc}
use lsm_toolchain.Prelude.{
  ℕ, zero, suc, ◌+◌, ◌<◌, ◌≤◌, ◌≡◌, refl, sym, ap, subst, ◌∙◌, ◌⊎◌, inl, inr, true, false, ◌==◌,
  ◌&&◌, ◌||◌, List, [], ◌∷◌, ◌++◌, if◌then◌else◌, length, length-append, arith, Bool-cases, ==_iff,
  Option, none, some, All, All-append,
}
use lsm_toolchain.Lexer.Token.{TokenType, Token}
use lsm_toolchain.Lexer.Chars.{is_alpha, is_digit}
use lsm_toolchain.Lexer.Operators.{operators}
use lsm_toolchain.Lexer.Cursor.{Cursor, start_of, first, second, peek, peek_next, skip_blanks}
use lsm_toolchain.Lexer.Tokenize.{
  token_at, hex_token, number_token, next_token, found, at_end, push, tokens_from, tokenize,
}
use lsm_toolchain.Lexer.Position.{Over, Over-nil, Over-trans, newlines, column}
use lsm_toolchain.Lexer.Blanks.{MovedOn, MovedOn-shorter, Moved-skip_blanks}
use lsm_toolchain.Lexer.Spelling.{
  Spelled, Spelled-word, Spelled-hex, Spelled-number, Spelled-string, Spelled-dot, Yields,
  Yields-operator, operators-Solid,
}

Yields-number :
    (k : Cursor) (c : ℕ) (cs : List ℕ)
    → k.rest ≡ c ∷ cs
    → (is_digit (peek k) || ((peek k == b'.') && is_digit (peek_next k))) ≡ true
    → Yields k (
        if (peek k == b'0') && ((peek_next k == b'x') || (peek_next k == b'X'))
        then found (hex_token k)
        else found (number_token k))
Yields-number k c cs e number =
    elim (Bool-cases ((peek k == b'0') && ((peek_next k == b'x') || (peek_next k == b'X')))) [
      | inr dec ↦ rw dec (
          Spelled-number k c cs e (
            subst (λ r. (is_digit (first r) || ((first r == b'.') && is_digit (second r))) ≡ true) e
              number))
      | inl hex ↦ rw hex (go cs e hex)
    ]
  where
    go :
        (cs : List ℕ)
        → k.rest ≡ c ∷ cs
        → ((peek k == b'0') && ((peek_next k == b'x') || (peek_next k == b'X'))) ≡ true
        → Spelled k (hex_token k).0 (hex_token k).1
    go [] e hex = absurd (ground (arith, e, hex))
    go (d ∷ ds) e hex = Spelled-hex k c d ds e

pub Yields-next : (k : Cursor) (c : ℕ) (cs : List ℕ) → k.rest ≡ c ∷ cs → Yields k (next_token k)
unfolding next_token
Yields-next k c cs e =
    let head : peek k ≡ c = ap first e in
    let at_byte = λ (b : ℕ) (is : (peek k == b) ≡ true).
      e ∙ ap (λ y. y ∷ cs) (sym head ∙ (==_iff (peek k) b).0 is) in
    elim (Bool-cases (is_alpha (peek k) || (peek k == b'_'))) [
      | inl word ↦
          rw word
            (Spelled-word k c cs e (subst (λ y. (is_alpha y || (y == b'_')) ≡ true) head word))
      | inr a ↦
          elim (Bool-cases (is_digit (peek k) || ((peek k == b'.') && is_digit (peek_next k)))) [
            | inl number ↦ rw (a, number) (Yields-number k c cs e number)
            | inr b ↦ elim (Bool-cases (peek k == b'"')) [
              | inl quote ↦ rw (a, b, quote) (Spelled-string k cs (at_byte b'"' quote))
              | inr d ↦ elim (Bool-cases (peek k == b'.')) [
                | inl dot ↦ rw (a, b, d, dot) (Spelled-dot k cs (at_byte b'.' dot))
                | inr no_dot ↦
                    rw (a, b, d, no_dot) (Yields-operator operators k c cs e operators-Solid)
              ]
            ]
          ]
    ]

-- The token's bytes stand in the source, behind a quote for a string: at its offset, on its line
-- and in its column.
pub record Lexeme (src : List ℕ) (t : Token) : Type 0 where
  pub before : List ℕ
  pub opening : List ℕ
  pub after : List ℕ
  pub found : src ≡ before ++ (opening ++ (t.value ++ after))
  pub quote : (opening ≡ []) ⊎ ((opening ≡ b'"' ∷ []) × (t.type ≡ TokenType.string))
  pub offset : t.offset ≡ length before
  pub line : t.line ≡ 1 + newlines before
  pub col : t.col ≡ column 1 before

Lexeme-Spelled :
    (src before : List ℕ) (k l : Cursor) (t : Token)
    → Over (start_of src) before k
    → Spelled k t l
    → Lexeme src t
Lexeme-Spelled src before k l t g h = record {
  before = before;
  opening = h.opening;
  after = h.closing ++ l.rest;
  found =
      g.rest
      ∙ ap (λ r. before ++ r)
          (h.over.rest
            ∙ append_assoc h.opening (t.value ++ h.closing) l.rest
            ∙ ap (λ r. h.opening ++ r) (append_assoc t.value h.closing l.rest));
  quote = h.quote;
  offset = omega (arith, h.offset, g.pos);
  line = omega (arith, h.line, g.line);
  col = h.col ∙ g.col;
}

Spelled-MovedOn : (k l : Cursor) (t : Token) → Spelled k t l → MovedOn k l
Spelled-MovedOn k l t h = go (h.opening ++ (t.value ++ h.closing)) h.over h.long
  where
    go : (w : List ℕ) → Over k w l → 0 < length w → MovedOn k l
    go [] o lt = absurd (omega arith)
    go (c ∷ w) o lt = (c, w, o)

pub Yields-MovedOn : (k l : Cursor) (o : Option Token) → Yields k (o, l) → MovedOn k l
Yields-MovedOn k l (some t) h = Spelled-MovedOn k l t h
Yields-MovedOn k l none h = h

pub rest-cases :
    (k : Cursor)
    → ((k.rest ≡ []) × (at_end k ≡ true))
      ⊎ ((c : ℕ) × (cs : List ℕ) × (k.rest ≡ c ∷ cs) × (at_end k ≡ false))
rest-cases k = go k.rest refl
  where
    go :
        (r : List ℕ)
        → k.rest ≡ r
        → ((k.rest ≡ []) × (at_end k ≡ true))
          ⊎ ((c : ℕ) × (cs : List ℕ) × (k.rest ≡ c ∷ cs) × (at_end k ≡ false))
    go [] e = inl (e, ground (arith, e))
    go (c ∷ cs) e = inr (c, cs, e, ground (arith, e))

Lexeme-push :
    (src before : List ℕ) (k l : Cursor) (o : Option Token) (ts : List Token) (m : Cursor)
    → Over (start_of src) before k
    → Yields k (o, l)
    → All (Lexeme src) ts
    → All (Lexeme src) (push o (ts, m)).0
Lexeme-push src before k l none ts m g h rest = rest
Lexeme-push src before k l (some t) ts m g h rest = (Lexeme-Spelled src before k l t g h, rest)

rest-push : (o : Option Token) (out : List Token × Cursor) → (push o out).1 ≡ out.1
rest-push none out = refl
rest-push (some t) out = refl

-- What the loop has done from a cursor on, with enough fuel.
record Lexed (src : List ℕ) (out : List Token × Cursor) : Type 0 where
  lexemes : All (Lexeme src) out.0
  ends : out.1.rest ≡ []
  whole : (before : List ℕ) × Over (start_of src) before out.1

Lexed-push :
    (src before : List ℕ) (k l : Cursor) (o : Option Token) (out : List Token × Cursor)
    → Over (start_of src) before k
    → Yields k (o, l)
    → Lexed src out
    → Lexed src (push o out)
Lexed-push src before k l o out g h later = record {
  lexemes = Lexeme-push src before k l o out.0 out.1 g h later.lexemes;
  ends = rw (rest-push o out) later.ends;
  whole = rw (rest-push o out) later.whole;
}

Lexed-from :
    (fuel : ℕ) (src before : List ℕ) (k : Cursor)
    → Over (start_of src) before k
    → length k.rest < fuel
    → Lexed src (tokens_from fuel k)
unfolding tokens_from
Lexed-from zero src before k g lt = absurd (omega arith)
Lexed-from (suc fuel) src before k g lt = elim (rest-cases k) [
  | inl (e, stop) ↦ rw stop (record { lexemes = tt; ends = e; whole = (before, g) })
  | inr (_, _, _, go) ↦
      let s = skip_blanks k in
      let (w, skipped) = Moved-skip_blanks k in
      let here = Over-trans (start_of src) k s before w g skipped in
      let no_longer : length s.rest ≤ length k.rest =
        omega (arith, ap length skipped.rest, length-append w s.rest) in
      elim (rest-cases s) [
        | inl (e, stop) ↦
            rw (go, stop) (record { lexemes = tt; ends = e; whole = (before ++ w, here) })
        | inr (c, cs, e, on) ↦
            let l = (next_token s).1 in
            let yields = Yields-next s c cs e in
            let moved = Yields-MovedOn s l (next_token s).0 yields in
            let (b, v, over) = moved in
            let shorter = MovedOn-shorter s l moved in
            let later =
              Lexed-from fuel src ((before ++ w) ++ (b ∷ v)) l
                (Over-trans (start_of src) s l (before ++ w) (b ∷ v) here over) (omega arith) in
            rw (go, on)
              (Lexed-push src (before ++ w) s l (next_token s).0 (tokens_from fuel l) here yields
                later)
      ]
]

lexed : (src : List ℕ) → Lexed src (tokens_from (suc (length src)) (start_of src))
lexed src =
    Lexed-from (suc (length src)) src [] (start_of src) (Over-nil (start_of src)) (omega arith)

-- Every token that `tokenize` returns stands in the source: its bytes are found there at its
-- offset, for a string behind a quote, and its line and column are one more than the newlines in
-- front of it and one more than the bytes since the last of them.
pub tokenize-Lexeme : (src : List ℕ) → All (Lexeme src) (tokenize src).0
unfolding tokenize
tokenize-Lexeme src =
    let h = lexed src in
    let k = (tokens_from (suc (length src)) (start_of src)).1 in
    let (before, over) = h.whole in
    All-append (Lexeme src) (tokens_from (suc (length src)) (start_of src)).0
      (token_at k TokenType.eof [] ∷ []) h.lexemes
      (
        record {
          before = before;
          opening = [];
          after = [];
          found = over.rest ∙ ap (λ r. before ++ r) h.ends;
          quote = inl refl;
          offset = omega (arith, over.pos);
          line = over.line;
          col = over.col;
        },
        tt,
      )

-- The loop of `tokenize` ends with the whole source read: its position is the source's length.
pub tokenize_reads : (src : List ℕ) → (tokenize src).1.pos ≡ length src
unfolding tokenize
tokenize_reads src =
    let h = lexed src in
    let (before, over) = h.whole in
    omega
      (arith, over.pos, ap length (over.rest ∙ ap (λ r. before ++ r) h.ends ∙ append-nil before))
