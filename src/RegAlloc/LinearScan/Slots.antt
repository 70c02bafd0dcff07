-- ===== src/RegAlloc/LinearScan/Slots.antt =====
-- src/backend/regalloc/LinearScanAllocator.hpp: every interval is settled, and spill slots are apart.
use lsm_toolchain.Prelude.{
  ℕ, zero, suc, ◌+◌, ◌≤◌, ◌<◌, ◌≡◌, ◌≢◌, refl, sym, subst, ◌∙◌, ◌⊎◌, inl, inr, Bool, true, false,
  Option, none, some, List, [], ◌∷◌, ◌++◌, In, Distinct, arith, ltb, ◌==◌, Bool-cases, Option-cases,
}
use mathlib.Core.List.Permᴰ
use lsm_toolchain.Prelude.Perms.{
  In-Perm, In-snoc, In_last, Distinct-Perm, Distinct-snoc, Distinct-front,
}
use lsm_toolchain.Prelude.{In-append_left}
use lsm_toolchain.Ssa.{ArchType}
use lsm_toolchain.RegAlloc.Interval.{LiveInterval, is_float}
use lsm_toolchain.RegAlloc.LinearScan.{
  Store, Scan, pool, update, release, expire_from, expire_old, spill, split_last, set_assigned,
  pop_pool, steal, spill_against, spill_at, take_from, allocate_one, allocate_upto, scanned,
  allocate, gprs, fprs,
}
use lsm_toolchain.RegAlloc.LinearScan.Pools.{
  store-expire_from, active-expire_from, In-still, Distinct-still,
}
use lsm_toolchain.RegAlloc.LinearScan.Good.{IsSort, split_last-some}

abbrev pub Holds : Store → ℕ → Type 0
Holds st i = (r : ℕ) × ((st i).assigned ≡ some r)

-- The intervals below `k` are done; a slot is eight bytes at an offset of its own.
pub record Slots (k : ℕ) (s : Scan) : Type 0 where
  pub bounded :
      (i : ℕ)
      → (s.store i).is_spilled ≡ true
      → (8 ≤ (s.store i).stack_offset) × ((s.store i).stack_offset ≤ s.spill_offset)
  pub apart :
      (i j : ℕ)
      → i ≢ j
      → (s.store i).is_spilled ≡ true
      → (s.store j).is_spilled ≡ true
      → ((s.store i).stack_offset + 8 ≤ (s.store j).stack_offset)
        ⊎ ((s.store j).stack_offset + 8 ≤ (s.store i).stack_offset)
  pub settled : (i : ℕ) → i < k → ((s.store i).is_spilled ≡ true) ⊎ Holds s.store i
  pub holds : (i : ℕ) → In i s.active → Holds s.store i
  pub below : (i : ℕ) → In i s.active → i < k
  pub nodup : Distinct s.active

offset-release :
    (i : LiveInterval) (o : Option ℕ) (s : Scan) → (release i o s).spill_offset ≡ s.spill_offset
unfolding release
offset-release i none s = refl
offset-release i (some r) s = ground arith

offset-expire_from :
    (t : ℕ) (as_ : List ℕ) (s : Scan) → (expire_from t as_ s).spill_offset ≡ s.spill_offset
unfolding expire_from
offset-expire_from t [] s = refl
offset-expire_from t (a ∷ as_) s =
    let gone =
      offset-expire_from t as_ (release (s.store a) (s.store a).assigned s)
      ∙ offset-release (s.store a) (s.store a).assigned s in
    let rest = offset-expire_from t as_ s in
    elim (Bool-cases (ltb (s.store a).end_point t)) [ inl e ↦ rw e gone | inr e ↦ rw e rest ]

Slots-expire : (k t : ℕ) (s : Scan) → Slots k s → Slots k (expire_old t s)
unfolding expire_old
Slots-expire k t s h =
    let st = store-expire_from t s.active s in
    let off = offset-expire_from t s.active s in
    let ac = active-expire_from t s.active s in
    record {
      bounded = rw (st, off) h.bounded;
      apart = rw st h.apart;
      settled = rw st h.settled;
      holds = rw (st, ac) (λ i m. h.holds i (In-still t s.store s.active i m).0);
      below = rw ac (λ i m. h.below i (In-still t s.store s.active i m).0);
      nodup = rw ac (Distinct-still t s.store s.active h.nodup);
    }

-- the first intervals up to a spilled one
Slots-spilled : (k : ℕ) (s : Scan) → Slots k s → Slots (suc k) (spill k s)
unfolding spill
Slots-spilled k s h = record {
  bounded = λ i e. ground (arith, h.bounded i);
  apart = λ i j ne ei ej. ground (arith, h.apart i j ne, h.bounded i, h.bounded j);
  settled = λ i lt. elim (Bool-cases (i == k)) [
    | inl e ↦ inl (ground arith)
    | inr n ↦ rw n (h.settled i (ground (arith, n)))
  ];
  holds = λ i m. let (r, e) = h.holds i m in (r, ground arith);
  below = λ i m. omega (arith, h.below i m);
  nodup = h.nodup;
}

-- a register for the current interval
Slots-assigned :
    (k r : ℕ) (s : Scan) (as_ : List ℕ)
    → Slots k s
    → Distinct as_
    → ((i : ℕ) → In i as_ → In i s.active ⊎ (i ≡ k))
    → Slots (suc k) (record (set_assigned k (some r) s) { active = as_ })
Slots-assigned k r s as_ h d sub = record {
  bounded = λ i e. ground (arith, h.bounded i);
  apart = λ i j ne ei ej. ground (arith, h.apart i j ne);
  settled = λ i lt. elim (Bool-cases (i == k)) [
    | inl e ↦ inr (r, ground arith)
    | inr n ↦ rw n (h.settled i (ground (arith, n)))
  ];
  holds = λ i m. elim (Bool-cases (i == k)) [
    | inl e ↦ (r, ground arith)
    | inr n ↦ elim (sub i m) [ inl old ↦ rw n (h.holds i old) | inr e ↦ absurd (ground arith) ]
  ];
  below = λ i m. elim (sub i m) [ inl old ↦ omega (arith, h.below i old) | inr e ↦ omega arith ];
  nodup = d;
}

-- The candidate loses its register to the current interval and gets a slot.
Slots-steal :
    (k c r : ℕ) (s : Scan) (as_ : List ℕ)
    → Slots k s
    → (s.store c).assigned ≡ some r
    → ¬ (c ≡ k)
    → Distinct as_
    → ((i : ℕ) → In i as_ → (In i s.active × ¬ (i ≡ c)) ⊎ (i ≡ k))
    → Slots (suc k) (record (steal k c s) { active = as_ })
unfolding steal
Slots-steal k c r s as_ h held ne d sub = record {
  bounded = λ i e. ground (arith, h.bounded i);
  apart = λ i j nij ei ej. ground (arith, h.apart i j nij, h.bounded i, h.bounded j);
  settled = λ i lt. elim (Bool-cases (i == c)) [
    | inl e ↦ inl (ground arith)
    | inr n ↦ elim (Bool-cases (i == k)) [
      | inl e ↦ inr (r, ground arith)
      | inr m ↦ rw (n, m) (h.settled i (ground (arith, m)))
    ]
  ];
  holds = λ i m. elim (sub i m) [
    | inr e ↦ (r, ground arith)
    | inl (old, away) ↦ elim (Bool-cases (i == k)) [
      | inl e ↦ (r, ground arith)
      | inr n ↦ let (q, e) = h.holds i old in (q, ground arith)
    ]
  ];
  below = λ i m. elim (sub i m) [
    | inl (old, away) ↦ omega (arith, h.below i old)
    | inr e ↦ omega arith
  ];
  nodup = d;
}

module _ (sort : (ℕ → ℕ) → List ℕ → List ℕ) (law : IsSort sort) where
  -- the active list after a push and the sort
  Sorted :
      (key : ℕ → ℕ) (xs : List ℕ) (k i : ℕ) → In i (sort key (xs ++ (k ∷ []))) → In i xs ⊎ (i ≡ k)
  Sorted key xs k i m = In-snoc i k xs (In-Perm i (law.permutes key (xs ++ (k ∷ []))) m)

  Sorted-Distinct :
      (key : ℕ → ℕ) (xs : List ℕ) (k : ℕ)
      → Distinct xs
      → ¬ (In k xs)
      → Distinct (sort key (xs ++ (k ∷ [])))
  Sorted-Distinct key xs k d n =
      Distinct-Perm (Permᴰ.symm (law.permutes key (xs ++ (k ∷ [])))) (Distinct-snoc k xs d n)

  Slots-pop_pool : (k : ℕ) (b : Bool) (p : List ℕ) (s : Scan) → Slots k s → Slots k (pop_pool b p s)
  unfolding pop_pool
  Slots-pop_pool k true p s h = record {
    bounded = h.bounded;
    apart = h.apart;
    settled = h.settled;
    holds = h.holds;
    below = h.below;
    nodup = h.nodup;
  }
  Slots-pop_pool k false p s h = record {
    bounded = h.bounded;
    apart = h.apart;
    settled = h.settled;
    holds = h.holds;
    below = h.below;
    nodup = h.nodup;
  }

  Slots-against :
      (k c : ℕ) (rest : List ℕ) (s : Scan)
      → s.active ≡ rest ++ (c ∷ [])
      → Slots k s
      → Slots (suc k) (spill_against sort k (some (rest, c)) s)
  unfolding spill_against
  Slots-against k c rest s split h =
      let last : In c s.active = subst (In c) (sym split) (In_last c rest) in
      let (r, held) = h.holds c last in
      let (d, away) = Distinct-front c rest (subst Distinct split h.nodup) in
      let old : (i : ℕ) → In i rest → In i s.active =
        λ i m. subst (In i) (sym split) (In-append_left i rest (c ∷ []) m) in
      let key = λ (a : ℕ). ((steal k c s).store a).end_point in
      elim (Bool-cases (ltb (s.store k).end_point (s.store c).end_point)) [
        | inr keeps ↦ rw keeps (Slots-spilled k s h)
        | inl steals ↦ rw steals (
            Slots-steal k c r s (sort key (rest ++ (k ∷ []))) h held
              (λ e. omega (arith, h.below c last, e))
              (Sorted-Distinct key rest k d (λ m. omega (arith, h.below k (old k m))))
              (λ i m. elim (Sorted key rest k i m) [
                | inl a ↦ inl (old i a, λ e. away (subst (λ z. In z rest) e a))
                | inr e ↦ inr e
              ]))
      ]

  active-pop_pool : (b : Bool) (p : List ℕ) (s : Scan) → (pop_pool b p s).active ≡ s.active
  unfolding pop_pool
  active-pop_pool true p s = refl
  active-pop_pool false p s = refl

  Slots-take :
      (k : ℕ) (float : Bool) (p : List ℕ) (s : Scan)
      → Slots k s
      → Slots (suc k) (take_from sort k float p s)
  unfolding take_from
  Slots-take k float [] s h = elim (Option-cases (split_last s.active)) [
    | inl empty ↦ unfold spill_at spill_against in rw empty (Slots-spilled k s h)
    | inr ((rest, c), last) ↦
        unfold spill_at in
        rw last (Slots-against k c rest s (split_last-some s.active rest c last) h)
  ]
  Slots-take k float (r ∷ p) s h =
      let popped = pop_pool float p s in
      let same = active-pop_pool float p s in
      let key = λ (a : ℕ).
        (update popped.store k (record (popped.store k) { assigned = some r }) a).end_point in
      let outside : ¬ (In k s.active) = λ m. absurd (omega (arith, h.below k m)) in
      Slots-assigned k r popped (sort key (s.active ++ (k ∷ []))) (Slots-pop_pool k float p s h)
        (Sorted-Distinct key s.active k h.nodup outside)
        (λ i m. elim (Sorted key s.active k i m) [
          | inl a ↦ inl (subst (In i) (sym same) a)
          | inr e ↦ inr e
        ])

  Slots-upto : (n : ℕ) (s : Scan) → Slots 0 s → Slots n (allocate_upto sort n s)
  unfolding allocate_upto allocate_one
  Slots-upto zero s h = h
  Slots-upto (suc n) s h =
      let before = allocate_upto sort n s in
      let float = is_float (before.store n).type in
      let expired = expire_old (before.store n).start_point before in
      Slots-take n float (pool float expired) expired
        (Slots-expire n (before.store n).start_point before (Slots-upto n s h))

-- When the allocator is done with intervals none of which was spilled before, each of them holds
-- a register or is spilled; the eight bytes of a spilled one lie within the bytes the frame
-- reserves, and those of two spilled ones do not overlap.
pub allocate_settled :
    (sort : (ℕ → ℕ) → List ℕ → List ℕ) (arch : ArchType) (n : ℕ) (st : Store)
    → IsSort sort
    → ((k : ℕ) → (st k).is_spilled ≡ false)
    → ((i : ℕ)
        → i < n
        → (((scanned sort arch n st).store i).is_spilled ≡ true)
          ⊎ Holds (scanned sort arch n st).store i)
      × ((i : ℕ)
          → ((scanned sort arch n st).store i).is_spilled ≡ true
          → (8 ≤ ((scanned sort arch n st).store i).stack_offset)
            × (((scanned sort arch n st).store i).stack_offset
                ≤ (allocate sort arch n st).total_stack_spill_bytes))
      × ((i j : ℕ)
          → i ≢ j
          → ((scanned sort arch n st).store i).is_spilled ≡ true
          → ((scanned sort arch n st).store j).is_spilled ≡ true
          → (((scanned sort arch n st).store i).stack_offset + 8
              ≤ ((scanned sort arch n st).store j).stack_offset)
            ⊎ (((scanned sort arch n st).store j).stack_offset + 8
                ≤ ((scanned sort arch n st).store i).stack_offset))
unfolding scanned allocate
allocate_settled sort arch n st law fresh =
    let s0 : Scan = record {
      free_gprs = gprs arch;
      free_fprs = fprs arch;
      active = [];
      spill_offset = 0;
      store = st;
    } in
    let h = Slots-upto sort law n s0 (record {
      bounded = λ i e. absurd (ground (arith, fresh i));
      apart = λ i j ne e. absurd (ground (arith, fresh i));
      settled = λ i lt. absurd (omega arith);
      holds = λ i m. absurd m;
      below = λ i m. absurd m;
      nodup = tt;
    }) in
    (h.settled, h.bounded, h.apart)
