-- ===== src/RegAlloc/LinearScan/Good.antt =====
-- src/backend/regalloc/LinearScanAllocator.hpp: each step keeps the invariant of the register file.
use mathlib.Core.List.{Permᴰ}
use mathlib.Core.List.Permᴰ
use mathlib.Core.Path.{fun_ext}
use lsm_toolchain.Prelude.{
  ℕ, zero, suc, ◌≤◌, ◌<◌, ◌≡◌, ◌≢◌, refl, sym, ap, subst, ◌∙◌, ◌⊎◌, inl, inr, Bool, true, false,
  Option, none, some, List, [], ◌∷◌, ◌++◌, In, Distinct, arith, ltb, Bool-cases, Option-cases,
}
use lsm_toolchain.Prelude.Perms.{In-Perm, Distinct-Perm, In-snoc, In_last, Distinct-snoc}
use lsm_toolchain.Prelude.{In-append_left}
use lsm_toolchain.RegAlloc.Interval.{is_float}
use lsm_toolchain.RegAlloc.LinearScan.{
  Store, Scan, pool, update, expire_from, expire_old, spill, split_last, set_assigned, sort_active,
  pop_pool, steal, spill_against, take_from, allocate_one, allocate_upto,
}
use lsm_toolchain.RegAlloc.LinearScan.Pools.{
  IsOneClass, store-expire_from, still, active-expire_from, In-still, still-or-ended,
  Distinct-still, In-pool-expire_from, Distinct-pool-expire_from,
}
use lsm_toolchain.RegAlloc.LinearScan.Invariant.{
  give, Inv, Inv-expire, Inv-skip, Inv-drop, Inv-install, dropped-free, dropped-fresh,
}

-- What is relied on of `std::sort`: it permutes.
pub record IsSort (sort : (ℕ → ℕ) → List ℕ → List ℕ) : Type 0 where
  pub permutes : (key : ℕ → ℕ) (xs : List ℕ) → Permᴰ (sort key xs) xs

pub split_last-none : (xs : List ℕ) → split_last xs ≡ none → xs ≡ []
split_last-none [] e = refl
split_last-none (x ∷ xs) e = elim (Option-cases (split_last xs)) [
  | inl empty ↦ ground arith
  | inr ((ys, y), e') ↦ ground arith
]

pub split_last-some :
    (xs rest : List ℕ) (c : ℕ) → split_last xs ≡ some (rest, c) → xs ≡ rest ++ (c ∷ [])
split_last-some [] rest c e = cc
split_last-some (x ∷ xs) rest c e = elim (Option-cases (split_last xs)) [
  | inl empty ↦ ground (arith, split_last-none xs empty)
  | inr ((ys, y), e') ↦ let ih : xs ≡ ys ++ (y ∷ []) = split_last-some xs ys y e' in ground arith
]

module _ (sort : (ℕ → ℕ) → List ℕ → List ℕ) (law : IsSort sort) (c : Bool) (st0 : Store)
    (one : IsOneClass c st0) where
  abbrev pub start_of : ℕ → ℕ
  start_of i = (st0 i).start_point

  abbrev pub end_of : ℕ → ℕ
  end_of i = (st0 i).end_point

  -- the allocator changes no type and no end of an interval
  pub record Good (k now : ℕ) (s : Scan) : Type 0 where
    pub types : (i : ℕ) → (s.store i).type ≡ (st0 i).type
    pub starts : (i : ℕ) → (s.store i).start_point ≡ (st0 i).start_point
    pub ends : (i : ℕ) → (s.store i).end_point ≡ (st0 i).end_point
    pub inv : Inv start_of end_of k now (λ i. (s.store i).assigned) s.active (pool c s)

  Good-expire : (k now t : ℕ) (s : Scan) → now ≤ t → Good k now s → Good k t (expire_old t s)
  unfolding expire_old
  Good-expire k now t s le g =
      let st = store-expire_from t s.active s in
      let ac = active-expire_from t s.active s in
      let cls : IsOneClass c s.store = λ i. ap is_float (g.types i) ∙ one i in
      record {
        types = rw st g.types;
        starts = rw st g.starts;
        ends = rw st g.ends;
        inv =
            rw (st, ac)
              (Inv-expire start_of end_of g.inv t (still t s.store s.active)
                (pool c (expire_from t s.active s)) le
                (Distinct-still t s.store s.active g.inv.nodup)
                (Distinct-pool-expire_from c t s.active s cls g.inv.pool)
                (λ i m. let (a, b) = In-still t s.store s.active i m in (a, rw (g.ends i) at b))
                (λ i m. rw (g.ends i) at (still-or-ended t s.store s.active i m))
                (λ r m. elim (In-pool-expire_from c t s.active s r cls m) [
                  | inl old ↦ inl old
                  | inr (a, am, e, h) ↦ inr (a, am, rw (g.ends a) at e, h)
                ]));
      }

  pool-set_assigned : (k : ℕ) (o : Option ℕ) (s : Scan) → pool c (set_assigned k o s) ≡ pool c s
  pool-set_assigned k o s = elim c as (λ b. pool b (set_assigned k o s) ≡ pool b s) [
    | true ↦ refl
    | false ↦ refl
  ]

  pool-spill : (k : ℕ) (s : Scan) → pool c (spill k s) ≡ pool c s
  unfolding spill
  pool-spill k s = elim c as (λ b. pool b (spill k s) ≡ pool b s) [ true ↦ refl | false ↦ refl ]

  spill-regs :
      (k : ℕ) (s : Scan)
      → ◌≡◌ {A = ℕ → Option ℕ} (λ i. ((spill k s).store i).assigned) (λ i. (s.store i).assigned)
  unfolding spill
  spill-regs k s = fun_ext (λ i. ground arith)

  -- a current interval that is spilled itself
  Good-spill : (k now : ℕ) (s : Scan) → Good k now s → Good (suc k) now (spill k s)
  Good-spill k now s g = record {
    types = λ i. unfold spill in ground (arith, g.types i);
    starts = λ i. unfold spill in ground (arith, g.starts i);
    ends = λ i. unfold spill in ground (arith, g.ends i);
    inv = rw (spill-regs k s, pool-spill k s, active-spill k s) (Inv-skip start_of end_of g.inv);
  }
    where
      active-spill : (k : ℕ) (s : Scan) → (spill k s).active ≡ s.active
      active-spill k s = unfold spill in refl

  -- the active list after a push and the sort
  In-sort :
      (key : ℕ → ℕ) (xs : List ℕ) (k i : ℕ) → In i (sort key (xs ++ (k ∷ []))) → In i xs ⊎ (i ≡ k)
  In-sort key xs k i m = In-snoc i k xs (In-Perm i (law.permutes key (xs ++ (k ∷ []))) m)

  In_sort :
      (key : ℕ → ℕ) (xs : List ℕ) (k i : ℕ) → In i xs ⊎ (i ≡ k) → In i (sort key (xs ++ (k ∷ [])))
  In_sort key xs k i m = In-Perm i (Permᴰ.symm (law.permutes key (xs ++ (k ∷ [])))) (elim m [
    | inl a ↦ In-append_left i xs (k ∷ []) a
    | inr e ↦ subst (λ z. In z (xs ++ (k ∷ []))) (sym e) (In_last k xs)
  ])

  Distinct-sort :
      (key : ℕ → ℕ) (xs : List ℕ) (k : ℕ)
      → Distinct xs
      → ¬ (In k xs)
      → Distinct (sort key (xs ++ (k ∷ [])))
  Distinct-sort key xs k d n =
      Distinct-Perm (Permᴰ.symm (law.permutes key (xs ++ (k ∷ [])))) (Distinct-snoc k xs d n)

  store-pop_pool : (b : Bool) (xs : List ℕ) (s : Scan) → (pop_pool b xs s).store ≡ s.store
  unfolding pop_pool
  store-pop_pool true xs s = refl
  store-pop_pool false xs s = refl

  pool-pop_pool :
      (b : Bool) (xs ys : List ℕ) (k : ℕ) (o : Option ℕ) (s : Scan)
      → pool b (sort_active sort (record (set_assigned k o (pop_pool b xs s)) { active = ys })) ≡ xs
  unfolding pop_pool
  pool-pop_pool true xs ys k o s = refl
  pool-pop_pool false xs ys k o s = refl

  -- a register from the pool
  Good-pool :
      (k now r : ℕ) (rest : List ℕ) (s : Scan)
      → pool c s ≡ r ∷ rest
      → now ≡ start_of k
      → Good k now s
      → Good (suc k) now (take_from sort k c (r ∷ rest) s)
  unfolding take_from
  Good-pool k now r rest s top st g =
      let key =
        λ (a : ℕ). (update s.store k (record (s.store k) { assigned = some r }) a).end_point in
      let split : Distinct (r ∷ rest) = subst Distinct top g.inv.pool in
      let outside : ¬ (In k s.active) = λ m. absurd (omega (arith, g.inv.below k m)) in
      let same : (λ i. (update s.store k (record (s.store k) { assigned = some r }) i).assigned)
          ≡ give (λ i. (s.store i).assigned) k (some r) =
        fun_ext (λ i. ground arith) in
      record {
        types = λ i. rw (store-pop_pool c rest s) (ground (arith, g.types i));
        starts = λ i. rw (store-pop_pool c rest s) (ground (arith, g.starts i));
        ends = λ i. rw (store-pop_pool c rest s) (ground (arith, g.ends i));
        inv =
            rw
              (
                pool-pop_pool c rest (s.active ++ (k ∷ [])) k (some r) s,
                store-pop_pool c rest s,
                same,
              )
              (Inv-install start_of end_of g.inv r (sort key (s.active ++ (k ∷ []))) rest st
                (In-sort key s.active k) (In_sort key s.active k)
                (Distinct-sort key s.active k g.inv.nodup outside)
                (λ q m. subst (In q) (sym top) (inr m)) split.1 split.0
                (λ i m e. g.inv.kept i r m e (subst (In r) (sym top) (inl refl))));
      }

  pool-steal :
      (k c' : ℕ) (ys : List ℕ) (s : Scan)
      → pool c (sort_active sort (record (steal k c' s) { active = ys })) ≡ pool c s
  unfolding steal
  pool-steal k c' ys s =
      elim c
        as (λ b. pool b (sort_active sort (record (steal k c' s) { active = ys })) ≡ pool b s) [
          | true ↦ refl
          | false ↦ refl
        ]

  steal-same :
      (k c' i : ℕ) (s : Scan)
      → (((steal k c' s).store i).type ≡ (s.store i).type)
        × (((steal k c' s).store i).start_point ≡ (s.store i).start_point)
        × (((steal k c' s).store i).end_point ≡ (s.store i).end_point)
  unfolding steal
  steal-same k c' i s = (ground arith, ground arith, ground arith)

  steal-regs :
      (k c' i : ℕ) (s : Scan)
      → k ≢ c'
      → ((steal k c' s).store i).assigned
        ≡ give (give (λ j. (s.store j).assigned) c' none) k (s.store c').assigned i
  unfolding steal
  steal-regs k c' i s ne = ground arith

  Good-steal :
      (k now c' r : ℕ) (rest : List ℕ) (s : Scan)
      → s.active ≡ rest ++ (c' ∷ [])
      → (s.store c').assigned ≡ some r
      → now ≡ start_of k
      → Good k now s
      → Good (suc k) now (sort_active sort (record (steal k c' s) { active = rest ++ (k ∷ []) }))
  Good-steal k now c' r rest s split held st g =
      let key = λ (a : ℕ). ((steal k c' s).store a).end_point in
      let before : c' < k = g.inv.below c' (subst (In c') (sym split) (In_last c' rest)) in
      let same : (λ i. ((steal k c' s).store i).assigned)
          ≡ give (give (λ j. (s.store j).assigned) c' none) k (some r) =
        fun_ext (λ i.
          steal-regs k c' i s (omega arith)
          ∙ ap (λ o. give (give (λ j. (s.store j).assigned) c' none) k o i) held) in
      let dropped = Inv-drop start_of end_of g.inv rest c' split in
      let outside : ¬ (In k rest) = λ m. absurd (omega (arith, dropped.below k m)) in
      record {
        types = λ i. (steal-same k c' i s).0 ∙ g.types i;
        starts = λ i. (steal-same k c' i s).1 ∙ g.starts i;
        ends = λ i. (steal-same k c' i s).2 ∙ g.ends i;
        inv =
            rw (pool-steal k c' (rest ++ (k ∷ [])) s, same)
              (Inv-install start_of end_of dropped r (sort key (rest ++ (k ∷ []))) (pool c s) st
                (In-sort key rest k) (In_sort key rest k)
                (Distinct-sort key rest k dropped.nodup outside) (λ q m. m) g.inv.pool
                (dropped-free start_of end_of g.inv rest c' split r held)
                (λ i m. dropped-fresh start_of end_of g.inv rest c' split r i held m));
      }

  Good-against :
      (k now c' : ℕ) (rest : List ℕ) (s : Scan)
      → s.active ≡ rest ++ (c' ∷ [])
      → now ≡ start_of k
      → Good k now s
      → Good (suc k) now (spill_against sort k (some (rest, c')) s)
  unfolding spill_against
  Good-against k now c' rest s split st g =
      let (r, held) = g.inv.holds c' (subst (In c') (sym split) (In_last c' rest)) in
      elim (Bool-cases (ltb (s.store k).end_point (s.store c').end_point)) [
        | inr keeps ↦ rw keeps (Good-spill k now s g)
        | inl steals ↦ rw steals (Good-steal k now c' r rest s split held st g)
      ]

  Good-take :
      (k now : ℕ) (p : List ℕ) (s : Scan)
      → pool c s ≡ p
      → now ≡ start_of k
      → Good k now s
      → Good (suc k) now (take_from sort k c p s)
  Good-take k now (r ∷ rest) s top st g = Good-pool k now r rest s top st g
  Good-take k now [] s top st g = elim (Option-cases (split_last s.active)) [
    | inl empty ↦ unfold take_from spill_against in rw empty (Good-spill k now s g)
    | inr ((rest, c'), last) ↦
        unfold take_from in
        rw last (Good-against k now c' rest s (split_last-some s.active rest c' last) st g)
  ]

  Good-one :
      (k now : ℕ) (s : Scan)
      → now ≤ start_of k
      → Good k now s
      → Good (suc k) (start_of k) (allocate_one sort k s)
  unfolding allocate_one
  Good-one k now s le g =
      let e = Good-expire k now (start_of k) s le g in
      let cls : is_float (s.store k).type ≡ c = ap is_float (g.types k) ∙ one k in
      rw (g.starts k, cls)
        (Good-take k (start_of k) (pool c (expire_old (start_of k) s)) (expire_old (start_of k) s)
          refl refl e)

  -- where the loop stands after `n` intervals
  abbrev pub reached : ℕ → ℕ
  reached zero = 0
  reached (suc n) = start_of n

  pub Good-upto :
      (n : ℕ) (s : Scan)
      → ((i j : ℕ) → i ≤ j → j < n → start_of i ≤ start_of j)
      → Good 0 0 s
      → Good n (reached n) (allocate_upto sort n s)
  unfolding allocate_upto
  Good-upto zero s ordered g = g
  Good-upto (suc n) s ordered g =
      Good-one n (reached n) (allocate_upto sort n s) (reached-le n ordered)
        (Good-upto n s (λ i j le lt. ordered i j le (omega arith)) g)
    where
      reached-le :
          (n : ℕ)
          → ((i j : ℕ) → i ≤ j → j < suc n → start_of i ≤ start_of j)
          → reached n ≤ start_of n
      reached-le zero o = omega arith
      reached-le (suc n) o = o n (suc n) (omega arith) (omega arith)
