-- ===== src/Lexer/Position.antt =====
-- src/frontend/lexer/Lexer.cpp: where a cursor stands, as the bytes behind it.
use mathlib.Core.List.{append_assoc}
use lsm_toolchain.Prelude.{
  ℕ, suc, ◌+◌, ◌-◌, ◌≡◌, refl, sym, ap, ◌∙◌, Bool, ◌==◌, List, [], ◌∷◌, ◌++◌, if◌then◌else◌, length,
  take, length-append, arith, Bool-cases, inl, inr,
}
use lsm_toolchain.Lexer.Cursor.{Cursor, advance, error, advance_while}

abbrev pub newlines : List ℕ → ℕ
newlines [] = 0
newlines (c ∷ cs) = if c == b'\n' then suc (newlines cs) else newlines cs

-- the column after the bytes, from a column in front of them
abbrev pub column : ℕ → List ℕ → ℕ
column n [] = n
column n (c ∷ cs) = column (if c == b'\n' then 1 else n + 1) cs

newlines-append : (u v : List ℕ) → newlines (u ++ v) ≡ newlines u + newlines v
newlines-append [] v = omega arith
newlines-append (c ∷ u) v = ground (arith, newlines-append u v)

column-append : (n : ℕ) (u v : List ℕ) → column n (u ++ v) ≡ column (column n u) v
column-append n [] v = refl
column-append n (c ∷ u) v = column-append (if c == b'\n' then 1 else n + 1) u v

pub take-length : (u v : List ℕ) → take (length u) (u ++ v) ≡ u
take-length [] v = refl
take-length (c ∷ u) v = ap (λ w. c ∷ w) (take-length u v)

-- The second cursor is the first one moved over the bytes `w`.
pub record Over (k : Cursor) (w : List ℕ) (l : Cursor) : Type 0 where
  pub rest : k.rest ≡ w ++ l.rest
  pub pos : l.pos ≡ k.pos + length w
  pub line : l.line ≡ k.line + newlines w
  pub col : l.col ≡ column k.col w

pub Over-nil : (k : Cursor) → Over k [] k
Over-nil k = record { rest = refl; pos = omega arith; line = omega arith; col = refl }

pub Over-error : (k l : Cursor) (w : List ℕ) → Over k w l → Over k w (error l)
unfolding error
Over-error k l w h = record { rest = h.rest; pos = h.pos; line = h.line; col = h.col }

pub Over-trans : (k l m : Cursor) (u v : List ℕ) → Over k u l → Over l v m → Over k (u ++ v) m
Over-trans k l m u v g h = record {
  rest = g.rest ∙ ap (λ w. u ++ w) h.rest ∙ sym (append_assoc u v m.rest);
  pos = omega (arith, g.pos, h.pos, length-append u v);
  line = omega (arith, g.line, h.line, newlines-append u v);
  col = h.col ∙ ap (λ n. column n v) g.col ∙ sym (column-append k.col u v);
}

pub Over-advance :
    (k : Cursor) (c : ℕ) (cs : List ℕ) → k.rest ≡ c ∷ cs → Over k (c ∷ []) (advance k)
unfolding advance
Over-advance k c cs e = record {
  rest = ground (arith, e);
  pos = ground (arith, e);
  line = ground (arith, e);
  col = ground (arith, e);
}

pub rest-advance : (k : Cursor) (c : ℕ) (cs : List ℕ) → k.rest ≡ c ∷ cs → (advance k).rest ≡ cs
unfolding advance
rest-advance k c cs e = ground (arith, e)

-- one byte, and what follows it
pub Over-cons :
    (k l : Cursor) (c : ℕ) (cs w : List ℕ)
    → k.rest ≡ c ∷ cs
    → Over (advance k) w l
    → Over k (c ∷ w) l
Over-cons k l c cs w e h = Over-trans k (advance k) l (c ∷ []) w (Over-advance k c cs e) h

pub Over-advance_while :
    (going : ℕ → Bool) (cs : List ℕ) (k : Cursor)
    → k.rest ≡ cs
    → (w : List ℕ) × Over k w (advance_while going cs k)
unfolding advance_while
Over-advance_while going [] k e = ([], Over-nil k)
Over-advance_while going (c ∷ cs) k e = elim (Bool-cases (going c)) [
  | inr stop ↦ rw stop ([], Over-nil k)
  | inl go ↦
      let (w, h) = Over-advance_while going cs (advance k) (rest-advance k c cs e) in
      rw go (c ∷ w, Over-cons k (advance_while going cs (advance k)) c cs w e h)
]

-- the bytes between two cursors
pub slice_lem : (k l : Cursor) (w : List ℕ) → Over k w l → take (l.pos - k.pos) k.rest ≡ w
slice_lem k l w h =
    let n : l.pos - k.pos ≡ length w = omega (arith, h.pos) in rw (n, h.rest) (take-length w l.rest)
