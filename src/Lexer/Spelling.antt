-- ===== src/Lexer/Spelling.antt =====
-- src/frontend/lexer/Lexer.cpp: what each kind of token takes from the source.
use mathlib.Core.List.{append-nil}
use lsm_toolchain.Prelude.{
  ℕ, String, ◌-◌, ◌<◌, ◌≡◌, ◌≢◌, refl, sym, subst, ◌∙◌, ◌⊎◌, inl, inr, Bool, true, false, not, ◌==◌,
  ◌&&◌, ◌||◌, List, [], ◌∷◌, ◌++◌, if◌then◌else◌, length, take, arith, Bool-cases, Option, none,
  some, All,
}
use lsm_toolchain.Lexer.Token.{TokenType, Token}
use lsm_toolchain.Lexer.Chars.{bytes, is_alpha, is_alnum, is_digit, is_xdigit}
use lsm_toolchain.Lexer.Keywords.{keywords, word_type, same_bytes}
use lsm_toolchain.Lexer.Operators.{Operator, operators}
use lsm_toolchain.Lexer.Cursor.{Cursor, first, tail, peek, advance, error, advance_while}
use lsm_toolchain.Lexer.Tokenize.{
  token_at, slice, word_token, hex_token, number_loop, number_token, string_loop, string_token,
  pair_token, dot_token, operator_token,
}
use lsm_toolchain.Lexer.Position.{
  Over, Over-nil, Over-error, Over-trans, Over-advance, Over-cons, Over-advance_while, rest-advance,
  slice_lem, take-length,
}
use lsm_toolchain.Lexer.Blanks.{Moved, MovedOn, MovedOn-advance_while}

-- a token whose bytes stand behind a quote
abbrev pub is_quoted : TokenType → Bool
is_quoted TokenType.string = true
is_quoted _ = false

-- The token stands at the first cursor, and the second one is behind it: its bytes, behind a
-- quote for a string, and a closing quote if there is one.
pub record Spelled (k : Cursor) (t : Token) (l : Cursor) : Type 0 where
  pub opening : List ℕ
  pub closing : List ℕ
  pub over : Over k (opening ++ (t.value ++ closing)) l
  pub quote : (opening ≡ []) ⊎ ((opening ≡ b'"' ∷ []) × (t.type ≡ TokenType.string))
  pub quoted : length opening ≡ (if is_quoted t.type then 1 else 0)
  pub long : 0 < length (opening ++ (t.value ++ closing))
  pub offset : t.offset ≡ k.pos
  pub line : t.line ≡ k.line
  pub col : t.col ≡ k.col

-- a token that is the bytes moved over
Spelled-plain :
    (k l : Cursor) (t : TokenType) (c : ℕ) (w : List ℕ)
    → is_quoted t ≡ false
    → Over k (c ∷ w) l
    → Spelled k (token_at k t (c ∷ w)) l
Spelled-plain k l t c w plain h = record {
  opening = [];
  closing = [];
  over = rw (append-nil w) h;
  quote = inl refl;
  quoted = rw plain refl;
  long = omega arith;
  offset = refl;
  line = refl;
  col = refl;
}

Spelled-slice :
    (k l : Cursor) (t : TokenType)
    → is_quoted t ≡ false
    → MovedOn k l
    → Spelled k (token_at k t (slice k l)) l
Spelled-slice k l t plain (c, w, h) =
    subst (λ v. Spelled k (token_at k t v) l) (sym (slice_lem k l (c ∷ w) h))
      (Spelled-plain k l t c w plain h)

-- no keyword has the type of a string
word_type-plain :
    (table : List (String × TokenType)) (id : List ℕ)
    → All (λ (p : String × TokenType). is_quoted p.1 ≡ false) table
    → is_quoted (word_type table id) ≡ false
unfolding word_type
word_type-plain [] id h = refl
word_type-plain ((w, t) ∷ table) id h = elim (Bool-cases (same_bytes id (bytes w))) [
  | inl here ↦ rw here h.0
  | inr there ↦ rw there (word_type-plain table id h.1)
]

keywords-plain : All (λ (p : String × TokenType). is_quoted p.1 ≡ false) keywords
keywords-plain = ground arith

pub Spelled-word :
    (k : Cursor) (c : ℕ) (cs : List ℕ)
    → k.rest ≡ c ∷ cs
    → (is_alpha c || (c == b'_')) ≡ true
    → Spelled k (word_token k).0 (word_token k).1
unfolding word_token
Spelled-word k c cs e word =
    Spelled-slice k (advance_while (λ c. is_alnum c || (c == b'_')) k.rest k) _
      (word_type-plain keywords _ keywords-plain)
      (MovedOn-advance_while (λ c. is_alnum c || (c == b'_')) k c cs e
        (unfold is_alnum in ground (arith, word)))

pub Spelled-hex :
    (k : Cursor) (c d : ℕ) (ds : List ℕ)
    → k.rest ≡ c ∷ d ∷ ds
    → Spelled k (hex_token k).0 (hex_token k).1
unfolding hex_token
Spelled-hex k c d ds e =
    let next = rest-advance k c (d ∷ ds) e in
    let (w, h) =
      Over-advance_while is_xdigit ds (advance (advance k)) (rest-advance (advance k) d ds next) in
    let l = advance_while is_xdigit ds (advance (advance k)) in
    let moved : MovedOn k l =
      (c, d ∷ w, Over-cons k l c (d ∷ ds) (d ∷ w) e (Over-cons (advance k) l d ds w next h)) in
    subst
      (λ r.
        Spelled k
          (token_at k TokenType.int
            (slice k (advance_while is_xdigit (tail (tail r)) (advance (advance k)))))
          (advance_while is_xdigit (tail (tail r)) (advance (advance k))))
      (sym e) (Spelled-slice k l TokenType.int refl moved)

Moved-number_loop :
    (b : Bool) (cs : List ℕ) (k : Cursor) → k.rest ≡ cs → Moved k (number_loop b cs k).1
unfolding number_loop
Moved-number_loop b [] k e = ([], Over-nil k)
Moved-number_loop b (c ∷ cs) k e =
    let (w, h) = Moved-number_loop (b || (c == b'.')) cs (advance k) (rest-advance k c cs e) in
    elim (Bool-cases (not (is_digit c || (c == b'.')) || ((c == b'.') && (first cs == b'.')))) [
      | inl stop ↦ rw stop ([], Over-nil k)
      | inr go ↦ elim (Bool-cases ((c == b'.') && b)) [
        | inl twice ↦ rw (go, twice) ([], Over-error k k [] (Over-nil k))
        | inr fine ↦
            rw (go, fine)
              (c ∷ w, Over-cons k (number_loop (b || (c == b'.')) cs (advance k)).1 c cs w e h)
      ]
    ]

MovedOn-number_loop :
    (k : Cursor) (c : ℕ) (cs : List ℕ)
    → k.rest ≡ c ∷ cs
    → (is_digit c || ((c == b'.') && is_digit (first cs))) ≡ true
    → MovedOn k (number_loop false (c ∷ cs) k).1
unfolding number_loop
MovedOn-number_loop k c cs e number =
    let (w, h) = Moved-number_loop (c == b'.') cs (advance k) (rest-advance k c cs e) in
    let go : (not (is_digit c || (c == b'.')) || ((c == b'.') && (first cs == b'.'))) ≡ false =
      unfold is_digit in ground (arith, number) in
    let fine : ((c == b'.') && false) ≡ false = ground arith in
    rw (go, fine) (c, w, Over-cons k (number_loop (c == b'.') cs (advance k)).1 c cs w e h)

number-plain : (b : Bool) → is_quoted (if b then TokenType.float else TokenType.int) ≡ false
number-plain true = refl
number-plain false = refl

pub Spelled-number :
    (k : Cursor) (c : ℕ) (cs : List ℕ)
    → k.rest ≡ c ∷ cs
    → (is_digit c || ((c == b'.') && is_digit (first cs))) ≡ true
    → Spelled k (number_token k).0 (number_token k).1
unfolding number_token
Spelled-number k c cs e number =
    let moved : MovedOn k (number_loop false k.rest k).1 =
      subst (λ r. MovedOn k (number_loop false r k).1) (sym e)
        (MovedOn-number_loop k c cs e number) in
    Spelled-slice k (number_loop false k.rest k).1 _ (number-plain (number_loop false k.rest k).0)
      moved

-- Where the loop stopped at the closing quote, the quote is next.
Moved-string_loop :
    (b : Bool) (cs : List ℕ) (k : Cursor)
    → k.rest ≡ cs
    → Moved k (string_loop b cs k).1
      × ((string_loop b cs k).0 ≡ true → (ds : List ℕ) × ((string_loop b cs k).1.rest ≡ b'"' ∷ ds))
unfolding string_loop
Moved-string_loop b [] k e = (([], Over-nil k), λ closed. cc)
Moved-string_loop b (c ∷ cs) k e =
    let go = not b && (c == b'\\') in
    let ((w, h), close) = Moved-string_loop go cs (advance k) (rest-advance k c cs e) in
    elim (Bool-cases ((c == 0) || (not b && (c == b'\n')))) [
      | inl stop ↦ rw stop (([], Over-nil k), λ closed. cc)
      | inr more ↦ elim (Bool-cases (not b && (c == b'"'))) [
        | inl quote ↦ rw (more, quote) (([], Over-nil k), λ closed. (cs, ground (arith, e, quote)))
        | inr inside ↦
            rw (more, inside)
              ((c ∷ w, Over-cons k (string_loop go cs (advance k)).1 c cs w e h), close)
      ]
    ]

Spelled-quoted :
    (k l : Cursor) (cs w : List ℕ) (closed : Bool)
    → k.rest ≡ b'"' ∷ cs
    → Over (advance k) w l
    → (closed ≡ true → (ds : List ℕ) × (l.rest ≡ b'"' ∷ ds))
    → Spelled k
        (token_at k TokenType.string (take (l.pos - k.pos - 1) cs))
        (if closed then advance l else error l)
Spelled-quoted k l cs w closed e h close =
    let all : Over k (b'"' ∷ w) l = Over-cons k l b'"' cs w e h in
    let n : l.pos - k.pos - 1 ≡ length w = omega (arith, all.pos) in
    let inside : take (l.pos - k.pos - 1) cs ≡ w =
      rw (n, sym (rest-advance k b'"' cs e) ∙ h.rest) (take-length w l.rest) in
    subst (λ v. Spelled k (token_at k TokenType.string v) (if closed then advance l else error l))
      (sym inside)
      (elim (Bool-cases closed) [
        | inr unclosed ↦ rw unclosed (record {
          opening = b'"' ∷ [];
          closing = [];
          over = rw (append-nil w) (Over-error k l (b'"' ∷ w) all);
          quote = inr (refl, refl);
          quoted = refl;
          long = omega arith;
          offset = refl;
          line = refl;
          col = refl;
        })
        | inl shut ↦
            let (ds, next) = close shut in
            rw shut (record {
              opening = b'"' ∷ [];
              closing = b'"' ∷ [];
              over =
                  Over-trans k l (advance l) (b'"' ∷ w) (b'"' ∷ []) all
                    (Over-advance l b'"' ds next);
              quote = inr (refl, refl);
              quoted = refl;
              long = omega arith;
              offset = refl;
              line = refl;
              col = refl;
            })
      ])

pub Spelled-string :
    (k : Cursor) (cs : List ℕ)
    → k.rest ≡ b'"' ∷ cs
    → Spelled k (string_token k).0 (string_token k).1
unfolding string_token
Spelled-string k cs e =
    subst
      (λ r.
        Spelled k
          (token_at k TokenType.string
            (take ((string_loop false (tail r) (advance k)).1.pos - k.pos - 1) (tail r)))
          (if (string_loop false (tail r) (advance k)).0
            then advance (string_loop false (tail r) (advance k)).1
            else error (string_loop false (tail r) (advance k)).1))
      (sym e)
      (let ((w, h), close) = Moved-string_loop false cs (advance k) (rest-advance k b'"' cs e) in
        Spelled-quoted k (string_loop false cs (advance k)).1 cs w
          (string_loop false cs (advance k)).0 e h close)

-- the cursor after one more byte that the test of `match` names
Over-match :
    (k l : Cursor) (w : List ℕ) (d : ℕ)
    → Over k w l
    → d ≢ 0
    → (peek l == d) ≡ true
    → Over k (w ++ (d ∷ [])) (advance l)
Over-match k l w d h ne next = go l.rest refl
  where
    go : (r : List ℕ) → l.rest ≡ r → Over k (w ++ (d ∷ [])) (advance l)
    go [] e = absurd (ground (arith, e, next))
    go (x ∷ xs) e =
        let same : x ≡ d = ground (arith, e, next) in
        Over-trans k l (advance l) w (d ∷ []) h
          (subst (λ y. Over l (y ∷ []) (advance l)) same (Over-advance l x xs e))

-- no byte of the table is the zero that `peek` gives at the end, and no type is that of a string
abbrev pub Solid : List (ℕ × TokenType) → Type 0
Solid = All (λ p. (p.0 ≢ 0) × (is_quoted p.1 ≡ false))

Spelled-pair :
    (k l : Cursor) (c : ℕ) (pairs : List (ℕ × TokenType)) (alone : TokenType)
    → is_quoted alone ≡ false
    → Over k (c ∷ []) l
    → Solid pairs
    → Spelled k (pair_token k c pairs alone l).0 (pair_token k c pairs alone l).1
unfolding pair_token
Spelled-pair k l c [] alone plain h solid = Spelled-plain k l alone c [] plain h
Spelled-pair k l c ((d, t) ∷ pairs) alone plain h solid = elim (Bool-cases (peek l == d)) [
  | inl next ↦ rw next (
      Spelled-plain k (advance l) t c (d ∷ []) solid.0.1
        (Over-match k l (c ∷ []) d h solid.0.0 next))
  | inr other ↦ rw other (Spelled-pair k l c pairs alone plain h solid.1)
]

pub Spelled-dot :
    (k : Cursor) (cs : List ℕ)
    → k.rest ≡ b'.' ∷ cs
    → Spelled k (dot_token k (advance k)).0 (dot_token k (advance k)).1
unfolding dot_token
Spelled-dot k cs e =
    let h = Over-advance k b'.' cs e in
    elim (Bool-cases (peek (advance k) == b'.')) [
      | inr one ↦ rw one (Spelled-plain k (advance k) TokenType.dot b'.' [] refl h)
      | inl two ↦
          let h2 = Over-match k (advance k) (b'.' ∷ []) b'.' h (omega arith) two in
          elim (Bool-cases (peek (advance (advance k)) == b'=')) [
            | inr half ↦
                rw (two, half)
                  (Spelled-plain k (advance (advance k)) TokenType.range b'.' (b'.' ∷ []) refl h2)
            | inl incl ↦
                rw (two, incl)
                  (Spelled-plain k (advance (advance (advance k))) TokenType.range_inclusive b'.'
                    (b'.' ∷ b'=' ∷ []) refl
                    (Over-match k (advance (advance k)) (b'.' ∷ b'.' ∷ []) b'=' h2 (omega arith)
                      incl))
          ]
    ]

-- What a round yields: a token that is spelled there, or no token but a byte that is passed.
abbrev pub Yields : Cursor → Option Token × Cursor → Type 0
Yields k (some t, l) = Spelled k t l
Yields k (none, l) = MovedOn k l

pub Yields-operator :
    (os : List Operator) (k : Cursor) (c : ℕ) (cs : List ℕ)
    → k.rest ≡ c ∷ cs
    → All (λ o. Solid o.pairs × (is_quoted o.alone ≡ false)) os
    → Yields k (operator_token os k (advance k))
unfolding operator_token
Yields-operator [] k c cs e solid =
    (c, [], Over-error k (advance k) (c ∷ []) (Over-advance k c cs e))
Yields-operator (o ∷ os) k c cs e solid = elim (Bool-cases (peek k == o.head)) [
  | inr other ↦ rw other (Yields-operator os k c cs e solid.1)
  | inl this_ ↦
      let same : c ≡ o.head = ground (arith, e, this_) in
      rw this_ (
        Spelled-pair k (advance k) o.head o.pairs o.alone solid.0.1
          (subst (λ y. Over k (y ∷ []) (advance k)) same (Over-advance k c cs e)) solid.0.0)
]

pub operators-Solid : All (λ o. Solid o.pairs × (is_quoted o.alone ≡ false)) operators
operators-Solid = ground arith
