-- ===== src/Lexer/Blanks.antt =====
-- src/frontend/lexer/Lexer.cpp: blanks and comments are skipped to the end.
use lsm_toolchain.Prelude.{
  ℕ, zero, suc, ◌<◌, ◌≡◌, refl, sym, ap, subst, ◌∙◌, inl, inr, Bool, true, false, ◌==◌, ◌&&◌, List,
  [], ◌∷◌, ◌++◌, length, length-append, arith, Bool-cases, none, some, Option-cases,
}
use lsm_toolchain.Lexer.Chars.{is_space}
use lsm_toolchain.Lexer.Cursor.{
  Cursor, first, second, tail, peek, peek_next, advance, advance_while, in_line, skip_block,
  skip_round, skip_rounds, skip_blanks,
}
use lsm_toolchain.Lexer.Position.{
  Over, Over-nil, Over-error, Over-trans, Over-advance, Over-cons, Over-advance_while, rest-advance,
}

-- The second cursor is the first one moved over some bytes.
abbrev pub Moved : Cursor → Cursor → Type 0
Moved k l = (w : List ℕ) × Over k w l

-- over at least one byte
abbrev pub MovedOn : Cursor → Cursor → Type 0
MovedOn k l = (c : ℕ) × (w : List ℕ) × Over k (c ∷ w) l

pub MovedOn-shorter : (k l : Cursor) → MovedOn k l → length l.rest < length k.rest
MovedOn-shorter k l (c, w, h) = omega (arith, ap length h.rest, length-append (c ∷ w) l.rest)

MovedOn-Moved : (k l m : Cursor) → MovedOn k l → Moved l m → MovedOn k m
MovedOn-Moved k l m (c, w, g) (v, h) = (c, w ++ v, Over-trans k l m (c ∷ w) v g h)

Moved-skip_block : (cs : List ℕ) (k : Cursor) → k.rest ≡ cs → Moved k (skip_block cs k)
unfolding skip_block
Moved-skip_block [] k e = ([], Over-error k k [] (Over-nil k))
Moved-skip_block (c ∷ cs) k e = elim (Bool-cases (c == 0)) [
  | inl nul ↦ rw nul ([], Over-error k k [] (Over-nil k))
  | inr more ↦ elim (Bool-cases ((c == b'*') && (first cs == b'/'))) [
    | inr inside ↦
        let (w, h) = Moved-skip_block cs (advance k) (rest-advance k c cs e) in
        rw (more, inside) (c ∷ w, Over-cons k (skip_block cs (advance k)) c cs w e h)
    | inl close ↦ rw (more, close) (closing k c cs e close)
  ]
]
  where
    closing :
        (k : Cursor) (c : ℕ) (cs : List ℕ)
        → k.rest ≡ c ∷ cs
        → ((c == b'*') && (first cs == b'/')) ≡ true
        → Moved k (advance (advance k))
    closing k c [] e close = absurd (ground (arith, close))
    closing k c (d ∷ ds) e close = (
      c ∷ d ∷ [],
      Over-cons k (advance (advance k)) c (d ∷ ds) (d ∷ []) e
          (Over-advance (advance k) d ds (rest-advance k c (d ∷ ds) e)),
    )

MovedOn-advance : (k : Cursor) (c : ℕ) (cs : List ℕ) → k.rest ≡ c ∷ cs → MovedOn k (advance k)
MovedOn-advance k c cs e = (c, [], Over-advance k c cs e)

pub MovedOn-advance_while :
    (going : ℕ → Bool) (k : Cursor) (c : ℕ) (cs : List ℕ)
    → k.rest ≡ c ∷ cs
    → going c ≡ true
    → MovedOn k (advance_while going k.rest k)
unfolding advance_while
MovedOn-advance_while going k c cs e go =
    let moved : MovedOn k (advance_while going cs (advance k)) =
      MovedOn-Moved k (advance k) (advance_while going cs (advance k)) (MovedOn-advance k c cs e)
        (Over-advance_while going cs (advance k) (rest-advance k c cs e)) in
    subst (λ r. MovedOn k (advance_while going r k)) (sym e) (rw go moved)

MovedOn-block :
    (k : Cursor) (c d : ℕ) (ds : List ℕ)
    → k.rest ≡ c ∷ d ∷ ds
    → MovedOn k (skip_block ds (advance (advance k)))
MovedOn-block k c d ds e =
    let second_ = rest-advance k c (d ∷ ds) e in
    let third = rest-advance (advance k) d ds second_ in
    let (w, h) = Moved-skip_block ds (advance (advance k)) third in
    let inner = Over-cons (advance k) (skip_block ds (advance (advance k))) d ds w second_ h in
    (c, d ∷ w, Over-cons k (skip_block ds (advance (advance k))) c (d ∷ ds) (d ∷ w) e inner)

slash_second : (k : Cursor) (c : ℕ) (cs : List ℕ) → k.rest ≡ c ∷ cs → peek_next k ≡ first cs
slash_second k c cs e = ap second e

-- a round takes at least one byte
MovedOn-skip_round :
    (k l : Cursor) (cs : List ℕ) → k.rest ≡ cs → skip_round k ≡ some l → MovedOn k l
unfolding skip_round
MovedOn-skip_round k l [] e h = absurd (unfold is_space in ground (arith, e, h))
MovedOn-skip_round k l (c ∷ cs) e h = elim (Bool-cases (is_space (peek k))) [
  | inl space ↦ subst (MovedOn k) (ground (arith, h, space)) (MovedOn-advance k c cs e)
  | inr solid ↦ elim (Bool-cases ((peek k == b'/') && (peek_next k == b'/'))) [
    | inl line ↦
        subst (MovedOn k) (ground (arith, h, solid, line))
          (MovedOn-advance_while in_line k c cs e (ground (arith, e, line)))
    | inr no_line ↦ elim (Bool-cases ((peek k == b'/') && (peek_next k == b'*'))) [
      | inr none_ ↦ absurd (ground (arith, h, solid, no_line, none_))
      | inl block ↦ go cs e h solid no_line block
    ]
  ]
]
  where
    go :
        (cs : List ℕ)
        → k.rest ≡ c ∷ cs
        → skip_round k ≡ some l
        → is_space (peek k) ≡ false
        → ((peek k == b'/') && (peek_next k == b'/')) ≡ false
        → ((peek k == b'/') && (peek_next k == b'*')) ≡ true
        → MovedOn k l
    go [] e h solid no_line block = absurd (ground (arith, e, block))
    go (d ∷ ds) e h solid no_line block =
        let same : skip_block (tail (tail k.rest)) (advance (advance k)) ≡ l =
          unfold skip_round in ground (arith, h, solid, no_line, block) in
        subst (MovedOn k)
          (ap (λ r. skip_block (tail (tail r)) (advance (advance k))) (sym e) ∙ same)
          (MovedOn-block k c d ds e)

pub Moved-skip_rounds : (fuel : ℕ) (k : Cursor) → Moved k (skip_rounds fuel k)
unfolding skip_rounds
Moved-skip_rounds zero k = ([], Over-nil k)
Moved-skip_rounds (suc fuel) k = elim (Option-cases (skip_round k)) [
  | inl stop ↦ rw (stop, skip_rounds) ([], Over-nil k)
  | inr (l, e) ↦
      let (c, w, g) = MovedOn-skip_round k l k.rest refl e in
      let (v, h) = Moved-skip_rounds fuel l in
      rw (e, skip_rounds) ((c ∷ w) ++ v, Over-trans k l (skip_rounds fuel l) (c ∷ w) v g h)
]

skip_rounds_ends :
    (fuel : ℕ) (k : Cursor) → length k.rest < fuel → skip_round (skip_rounds fuel k) ≡ none
unfolding skip_rounds
skip_rounds_ends zero k lt = absurd (omega arith)
skip_rounds_ends (suc fuel) k lt = elim (Option-cases (skip_round k)) [
  | inl stop ↦ rw (stop, skip_rounds) stop
  | inr (l, e) ↦
      let shorter = MovedOn-shorter k l (MovedOn-skip_round k l k.rest refl e) in
      rw (e, skip_rounds) (skip_rounds_ends fuel l (omega arith))
]

-- Where blanks and comments are skipped, none is left at the cursor: no round of the loop could
-- go on, whatever the source is.
pub skip_blanks_ends : (k : Cursor) → skip_round (skip_blanks k) ≡ none
unfolding skip_blanks
skip_blanks_ends k = skip_rounds_ends (suc (length k.rest)) k (omega arith)

pub Moved-skip_blanks : (k : Cursor) → Moved k (skip_blanks k)
unfolding skip_blanks
Moved-skip_blanks k = Moved-skip_rounds (suc (length k.rest)) k
