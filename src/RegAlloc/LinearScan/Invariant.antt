-- ===== src/RegAlloc/LinearScan/Invariant.antt =====
-- src/backend/regalloc/LinearScanAllocator.hpp: who holds which register, as the loop goes on.
-- The invariant is stated on the registers of the intervals, the active list and one free pool.
use lsm_toolchain.Prelude.{
  ℕ, suc, ◌≤◌, ◌<◌, ◌≡◌, ◌≢◌, sym, ap, subst, ◌∙◌, ◌⊎◌, inl, inr, Option, none, some, List, [], ◌∷◌,
  ◌++◌, In, Distinct, arith, if◌then◌else◌, ◌==◌, Bool-cases, ==_iff, In-append_left,
}
use lsm_toolchain.Prelude.Perms.{In-snoc, In_last, Distinct-front}

abbrev pub Regs : Type 0
Regs = ℕ → Option ℕ

abbrev pub give : Regs → ℕ → Option ℕ → Regs
give reg k o = λ i. if i == k then o else reg i

module _ (start_ end_ : ℕ → ℕ) where
  -- One of two intervals ends before the other starts.
  abbrev pub Apart : ℕ → ℕ → Type 0
  Apart i j = (end_ i < start_ j) ⊎ (end_ j < start_ i)

  -- The first `k` intervals are done, the last of them at `now`.
  pub record Inv (k now : ℕ) (reg : Regs) (active free : List ℕ) : Type 0 where
    pub pool : Distinct free
    pub nodup : Distinct active
    pub below : (i : ℕ) → In i active → i < k
    pub untouched : (i : ℕ) → k ≤ i → reg i ≡ none
    pub holds : (i : ℕ) → In i active → (r : ℕ) × (reg i ≡ some r)
    pub kept : (i r : ℕ) → In i active → reg i ≡ some r → ¬ (In r free)
    pub own : (i j r : ℕ) → In i active → In j active → reg i ≡ some r → reg j ≡ some r → i ≡ j
    pub ended : (i r : ℕ) → i < k → reg i ≡ some r → In i active ⊎ (end_ i < now)
    pub safe : (i j r : ℕ) → i < k → j < k → i ≢ j → reg i ≡ some r → reg j ≡ some r → Apart i j

  module _ {k now : ℕ} {reg : Regs} {active free : List ℕ} (h : Inv k now reg active free) where
    -- Expiry: what is dropped from the active list has ended, and only its registers are given
    -- back.
    pub Inv-expire :
        (t : ℕ) (active' free' : List ℕ)
        → now ≤ t
        → Distinct active'
        → Distinct free'
        → ((i : ℕ) → In i active' → In i active × (t ≤ end_ i))
        → ((i : ℕ) → In i active → In i active' ⊎ (end_ i < t))
        → ((r : ℕ)
            → In r free'
            → In r free ⊎ ((a : ℕ) × In a active × (end_ a < t) × (reg a ≡ some r)))
        → Inv k t reg active' free'
    Inv-expire t active' free' le da df sub cover back = record {
      pool = df;
      nodup = da;
      below = λ i m. h.below i (sub i m).0;
      untouched = h.untouched;
      holds = λ i m. h.holds i (sub i m).0;
      kept = λ i r m e n. elim (back r n) [
        | inl old ↦ h.kept i r (sub i m).0 e old
        | inr (a, am, gone, ea) ↦
            let same : a ≡ i = h.own a i r am (sub i m).0 ea e in
            let lt : end_ i < t = rw same at gone in absurd (omega (arith, (sub i m).1))
      ];
      own = λ i j r m n. h.own i j r (sub i m).0 (sub j n).0;
      ended =
          λ i r lt e. elim (h.ended i r lt e) [ inl m ↦ cover i m | inr past ↦ inr (omega arith) ];
      safe = h.safe;
    }

    -- An interval that gets no register.
    pub Inv-skip : Inv (suc k) now reg active free
    Inv-skip = record {
      pool = h.pool;
      nodup = h.nodup;
      below = λ i m. omega (arith, h.below i m);
      untouched = λ i le. h.untouched i (omega arith);
      holds = h.holds;
      kept = h.kept;
      own = h.own;
      ended = λ i r lt e. elim (at_most i lt) [
        | inl small ↦ h.ended i r small e
        | inr same ↦ cc (h.untouched i (omega arith))
      ];
      safe = λ i j r ilt jlt ne ei ej. elim (at_most i ilt) [
        | inl ismall ↦ elim (at_most j jlt) [
          | inl jsmall ↦ h.safe i j r ismall jsmall ne ei ej
          | inr same ↦ cc (h.untouched j (omega arith))
        ]
        | inr same ↦ cc (h.untouched i (omega arith))
      ];
    }
      where
        at_most : (i : ℕ) → i < suc k → (i < k) ⊎ (i ≡ k)
        at_most i lt = omega arith

    -- The last active interval loses its register, which then nobody holds.
    module _ (rest : List ℕ) (c : ℕ) (split : active ≡ rest ++ (c ∷ [])) where
      rest-sub : (i : ℕ) → In i rest → In i active × (i ≢ c)
      rest-sub i m =
          let (_, fresh) = Distinct-front c rest (subst Distinct split h.nodup) in
          (
            subst (In i) (sym split) (In-append_left i rest (c ∷ []) m),
            λ e. fresh (subst (λ z. In z rest) e m),
          )

      c-active : In c active
      c-active = subst (In c) (sym split) (In_last c rest)

      -- who holds a register without `c`, held it before
      give-none : (i r : ℕ) → give reg c none i ≡ some r → (reg i ≡ some r) × (i ≢ c)
      give-none i r e = elim (Bool-cases (i == c)) [
        | inl same ↦ cc (let x : none ≡ some r = rw same at e in x)
        | inr other ↦ (rw other at e, λ q. cc ((==_iff i c).1 q))
      ]

      give-other : (i : ℕ) → i ≢ c → give reg c none i ≡ reg i
      give-other i ne = ground arith

      pub Inv-drop : Inv k now (give reg c none) rest free
      Inv-drop = record {
        pool = h.pool;
        nodup = (Distinct-front c rest (subst Distinct split h.nodup)).0;
        below = λ i m. h.below i (rest-sub i m).0;
        untouched = λ i le. ground (arith, h.untouched i);
        holds = λ i m.
            let (a, ne) = rest-sub i m in let (r, e) = h.holds i a in (r, give-other i ne ∙ e);
        kept = λ i r m e. h.kept i r (rest-sub i m).0 (give-none i r e).0;
        own = λ i j r m n e f.
            h.own i j r (rest-sub i m).0 (rest-sub j n).0 (give-none i r e).0 (give-none j r f).0;
        ended = λ i r lt e.
            let (e', ne) = give-none i r e in
            elim (h.ended i r lt e') [
              | inl m ↦ elim (In-snoc i c rest (subst (In i) split m)) [
                | inl n ↦ inl n
                | inr q ↦ absurd (ne q)
              ]
              | inr past ↦ inr past
            ];
        safe =
            λ i j r ilt jlt ne e f. h.safe i j r ilt jlt ne (give-none i r e).0 (give-none j r f).0;
      }

      pub dropped-free : (r : ℕ) → reg c ≡ some r → ¬ (In r free)
      dropped-free r e = h.kept c r c-active e

      pub dropped-fresh : (r i : ℕ) → reg c ≡ some r → In i rest → give reg c none i ≢ some r
      dropped-fresh r i e m f =
          let (a, ne) = rest-sub i m in ne (h.own i c r a c-active (give-none i r f).0 e)

    -- The current interval, which starts now, gets a register that is not in the pool and that
    -- no active interval holds.
    module _ (r : ℕ) (active' free' : List ℕ) (starts : now ≡ start_ k)
        (sub : (i : ℕ) → In i active' → In i active ⊎ (i ≡ k))
        (cover : (i : ℕ) → In i active ⊎ (i ≡ k) → In i active') (nodup' : Distinct active')
        (smaller : (q : ℕ) → In q free' → In q free) (pool' : Distinct free')
        (unfree : ¬ (In r free')) (fresh : (i : ℕ) → In i active → reg i ≢ some r) where
      given :
          (i q : ℕ)
          → give reg k (some r) i ≡ some q
          → ((i ≡ k) × (q ≡ r)) ⊎ ((i ≢ k) × (reg i ≡ some q))
      given i q e = elim (Bool-cases (i == k)) [
        | inl same ↦ inl ((==_iff i k).0 same, (let x : some r ≡ some q = rw same at e in cc))
        | inr other ↦ inr (λ w. cc ((==_iff i k).1 w), rw other at e)
      ]

      k-given : give reg k (some r) k ≡ some r
      k-given = ground arith

      at_most : (i : ℕ) → i < suc k → i ≢ k → i < k
      at_most i lt ne = omega arith

      -- an interval of before that holds `r` has ended
      past : (i : ℕ) → i < k → reg i ≡ some r → end_ i < start_ k
      past i lt e = elim (h.ended i r lt e) [
        | inl m ↦ absurd (fresh i m e)
        | inr gone ↦ omega arith
      ]

      give-safe :
          (i j q : ℕ)
          → i < suc k
          → j < suc k
          → i ≢ j
          → give reg k (some r) i ≡ some q
          → give reg k (some r) j ≡ some q
          → Apart i j
      give-safe i j q ilt jlt ne e f = elim (given i q e) [
        | inl (ik, qr) ↦ elim (given j q f) [
          | inl (jk, _) ↦ absurd (ne (ik ∙ sym jk))
          | inr (nj, f') ↦ inr (rw ik (past j (at_most j jlt nj) (f' ∙ ap some qr)))
        ]
        | inr (ni, e') ↦ elim (given j q f) [
          | inl (jk, qr) ↦ inl (rw jk (past i (at_most i ilt ni) (e' ∙ ap some qr)))
          | inr (nj, f') ↦ h.safe i j q (at_most i ilt ni) (at_most j jlt nj) ne e' f'
        ]
      ]

      pub Inv-install : Inv (suc k) now (give reg k (some r)) active' free'
      Inv-install = record {
        pool = pool';
        nodup = nodup';
        below = λ i m. elim (sub i m) [ inl a ↦ omega (arith, h.below i a) | inr e ↦ omega arith ];
        untouched = λ i le. ground (arith, h.untouched i);
        holds = λ i m. elim (sub i m) [
          | inl a ↦ let (q, e) = h.holds i a in (q, ground (arith, h.below i a))
          | inr e ↦ (r, rw e k-given)
        ];
        kept = λ i q m e n. elim (given i q e) [
          | inl (_, qr) ↦ unfree (subst (λ z. In z free') qr n)
          | inr (ne, e') ↦ elim (sub i m) [
            | inl a ↦ h.kept i q a e' (smaller q n)
            | inr same ↦ ne same
          ]
        ];
        own = λ i j q m n e f. elim (given i q e) [
          | inl (ik, qr) ↦ elim (given j q f) [
            | inl (jk, _) ↦ ik ∙ sym jk
            | inr (nj, f') ↦ elim (sub j n) [
              | inl a ↦ absurd (fresh j a (f' ∙ ap some qr))
              | inr same ↦ absurd (nj same)
            ]
          ]
          | inr (ni, e') ↦ elim (sub i m) [
            | inl a ↦ elim (given j q f) [
              | inl (jk, qr) ↦ absurd (fresh i a (e' ∙ ap some qr))
              | inr (nj, f') ↦ elim (sub j n) [
                | inl b ↦ h.own i j q a b e' f'
                | inr same ↦ absurd (nj same)
              ]
            ]
            | inr same ↦ absurd (ni same)
          ]
        ];
        ended = λ i q lt e. elim (given i q e) [
          | inl (ik, _) ↦ inl (cover i (inr ik))
          | inr (ni, e') ↦ elim (h.ended i q (at_most i lt ni) e') [
            | inl a ↦ inl (cover i (inl a))
            | inr gone ↦ inr gone
          ]
        ];
        safe = give-safe;
      }
