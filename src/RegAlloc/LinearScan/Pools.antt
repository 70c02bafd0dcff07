-- ===== src/RegAlloc/LinearScan/Pools.antt =====
-- src/backend/regalloc/LinearScanAllocator.hpp: expiry, and the pool of one register class.
use lsm_toolchain.Prelude.{
  ℕ, ◌<◌, ◌≡◌, refl, sym, ap, ◌⊎◌, inl, inr, Bool, true, false, Option, none, some, List, [], ◌∷◌,
  In, Distinct, arith, ltb, ltb→lt, Bool-cases, Option-cases, if◌then◌else◌, subst, ◌∙◌, ◌≤◌,
}
use lsm_toolchain.RegAlloc.Interval.{LiveInterval, is_float}
use lsm_toolchain.RegAlloc.LinearScan.{Store, Scan, pool, has, push_free, release, expire_from}

-- Every interval is of the class.
abbrev pub IsOneClass : Bool → Store → Type 0
IsOneClass c st = (i : ℕ) → is_float (st i).type ≡ c

has_of_In : (r : ℕ) (xs : List ℕ) → In r xs → has r xs ≡ true
has_of_In r [] m = absurd m
has_of_In r (x ∷ xs) (inl e) = ground arith
has_of_In r (x ∷ xs) (inr m) = ground (arith, has_of_In r xs m)

push_free-Distinct : (r : ℕ) (xs : List ℕ) → Distinct xs → Distinct (push_free r xs)
unfolding push_free
push_free-Distinct r xs d = elim (Bool-cases (has r xs)) [
  | inl old ↦ rw old d
  | inr new ↦ rw new (λ m. cc (has_of_In r xs m), d)
]

In-push_free : (r q : ℕ) (xs : List ℕ) → In q (push_free r xs) → (q ≡ r) ⊎ In q xs
unfolding push_free
In-push_free r q xs m = elim (Bool-cases (has r xs)) [
  | inl old ↦ inr (rw old at m)
  | inr new ↦ rw new at m
]

pool-release :
    (c : Bool) (i : LiveInterval) (r : ℕ) (s : Scan)
    → is_float i.type ≡ c
    → pool c (release i (some r) s) ≡ push_free r (pool c s)
unfolding release
pool-release true i r s e = rw e
pool-release false i r s e = rw e

store-release : (i : LiveInterval) (o : Option ℕ) (s : Scan) → (release i o s).store ≡ s.store
unfolding release
store-release i none s = refl
store-release i (some r) s = ground arith

-- Expiry leaves the intervals as they are.
pub store-expire_from :
    (start : ℕ) (xs : List ℕ) (s : Scan) → (expire_from start xs s).store ≡ s.store
unfolding expire_from
store-expire_from start [] s = refl
store-expire_from start (a ∷ xs) s = ground (
  arith,
  store-expire_from start xs s,
  store-expire_from start xs (release (s.store a) (s.store a).assigned s),
  store-release (s.store a) (s.store a).assigned s,
)

pub spill_offset-expire_from :
    (start : ℕ) (xs : List ℕ) (s : Scan) → (expire_from start xs s).spill_offset ≡ s.spill_offset
unfolding expire_from release
spill_offset-expire_from start [] s = refl
spill_offset-expire_from start (a ∷ xs) s = ground (
  arith,
  spill_offset-expire_from start xs s,
  spill_offset-expire_from start xs (release (s.store a) (s.store a).assigned s),
)

-- the intervals that have not ended before `start`
abbrev pub still : ℕ → Store → List ℕ → List ℕ
still start st [] = []
still start st (a ∷ xs) =
    if ltb (st a).end_point start then still start st xs else a ∷ still start st xs

pub active-expire_from :
    (start : ℕ) (xs : List ℕ) (s : Scan) → (expire_from start xs s).active ≡ still start s.store xs
unfolding expire_from
active-expire_from start [] s = refl
active-expire_from start (a ∷ xs) s =
    let i = s.store a in
    ground (
      arith,
      active-expire_from start xs s,
      active-expire_from start xs (release i i.assigned s),
      ap (λ st. still start st xs) (store-release i i.assigned s),
    )

pub In-still :
    (start : ℕ) (st : Store) (xs : List ℕ) (a : ℕ)
    → In a (still start st xs)
    → In a xs × (start ≤ (st a).end_point)
In-still start st [] a m = absurd m
In-still start st (x ∷ xs) a m = elim (Bool-cases (ltb (st x).end_point start)) [
  | inl gone ↦ let (n, le) = In-still start st xs a (rw gone at m) in (inr n, le)
  | inr stays ↦ elim (rw stays at m) [
    | inl e ↦ (inl e, rw e (ground arith))
    | inr n ↦ let (n', le) = In-still start st xs a n in (inr n', le)
  ]
]

-- An interval that is not kept has ended.
pub still-or-ended :
    (start : ℕ) (st : Store) (xs : List ℕ) (a : ℕ)
    → In a xs
    → In a (still start st xs) ⊎ ((st a).end_point < start)
still-or-ended start st [] a m = absurd m
still-or-ended start st (x ∷ xs) a m = elim (Bool-cases (ltb (st x).end_point start)) [
  | inl gone ↦ elim m [
    | inl e ↦ inr (rw e (ltb→lt _ _ gone))
    | inr n ↦ rw gone (still-or-ended start st xs a n)
  ]
  | inr stays ↦ elim m [
    | inl e ↦ rw stays (inl (inl e))
    | inr n ↦ elim (still-or-ended start st xs a n) [
      | inl k ↦ rw stays (inl (inr k))
      | inr ended ↦ inr ended
    ]
  ]
]

pub Distinct-still :
    (start : ℕ) (st : Store) (xs : List ℕ) → Distinct xs → Distinct (still start st xs)
Distinct-still start st [] d = d
Distinct-still start st (x ∷ xs) d = elim (Bool-cases (ltb (st x).end_point start)) [
  | inl gone ↦ rw gone (Distinct-still start st xs d.1)
  | inr stays ↦ rw stays (λ m. d.0 (In-still start st xs x m).0, Distinct-still start st xs d.1)
]

-- A register is given back: its interval was active and has ended.
abbrev pub Freed : ℕ → Store → List ℕ → ℕ → Type 0
Freed start st xs r = (a : ℕ) × In a xs × ((st a).end_point < start) × ((st a).assigned ≡ some r)

pub pool-active : (c : Bool) (s : Scan) (xs : List ℕ) → pool c (record s { active = xs }) ≡ pool c s
pool-active true s xs = refl
pool-active false s xs = refl

Freed-later :
    (start : ℕ) (st : Store) (x : ℕ) (xs : List ℕ) (r : ℕ)
    → Freed start st xs r
    → Freed start st (x ∷ xs) r
Freed-later start st x xs r (a, m, e, h) = (a, inr m, e, h)

module _ (c : Bool) (start : ℕ) where
  -- the state after the first step, when the first interval has ended
  abbrev released : ℕ → Scan → Scan
  released a s = release (s.store a) (s.store a).assigned s

  store-released : (a : ℕ) (s : Scan) → (released a s).store ≡ s.store
  store-released a s = store-release (s.store a) (s.store a).assigned s

  In-pool-released :
      (a : ℕ) (xs : List ℕ) (s : Scan) (r : ℕ)
      → IsOneClass c s.store
      → (s.store a).end_point < start
      → In r (pool c (released a s))
      → In r (pool c s) ⊎ Freed start s.store (a ∷ xs) r
  unfolding release
  In-pool-released a xs s r one e m = elim (Option-cases (s.store a).assigned) [
    | inl bare ↦ inl (rw bare at m)
    | inr (q, held) ↦
        let m' : In r (push_free q (pool c s)) =
          rw (pool-release c (s.store a) q s (one a)) at (rw held at m) in
        elim (In-push_free q r (pool c s) m') [
          | inl new ↦ inr (a, inl refl, e, held ∙ ap some (sym new))
          | inr old ↦ inl old
        ]
  ]

  Distinct-pool-released :
      (a : ℕ) (s : Scan)
      → IsOneClass c s.store
      → Distinct (pool c s)
      → Distinct (pool c (released a s))
  unfolding release
  Distinct-pool-released a s one d = elim (Option-cases (s.store a).assigned) [
    | inl bare ↦ rw bare d
    | inr (q, held) ↦
        rw (held, pool-release c (s.store a) q s (one a)) (push_free-Distinct q (pool c s) d)
  ]

  -- What is in the pool after expiry was there before, or is given back.
  pub In-pool-expire_from :
      (xs : List ℕ) (s : Scan) (r : ℕ)
      → IsOneClass c s.store
      → In r (pool c (expire_from start xs s))
      → In r (pool c s) ⊎ Freed start s.store xs r
  unfolding expire_from
  In-pool-expire_from [] s r one m = inl (rw (pool-active c s []) at m)
  In-pool-expire_from (a ∷ xs) s r one m = elim (Bool-cases (ltb (s.store a).end_point start)) [
    | inl gone ↦
        let st = store-released a s in
        let one' : IsOneClass c (released a s).store = rw st one in
        elim (In-pool-expire_from xs (released a s) r one' (rw gone at m)) [
          | inl kept ↦ In-pool-released a xs s r one (ltb→lt _ _ gone) kept
          | inr freed ↦
              inr (Freed-later start s.store a xs r (subst (λ t. Freed start t xs r) st freed))
        ]
    | inr stays ↦
        let rest = expire_from start xs s in
        let m' : In r (pool c rest) =
          rw (pool-active c rest (a ∷ rest.active)) at (rw stays at m) in
        elim (In-pool-expire_from xs s r one m') [
          | inl kept ↦ inl kept
          | inr freed ↦ inr (Freed-later start s.store a xs r freed)
        ]
  ]

  pub Distinct-pool-expire_from :
      (xs : List ℕ) (s : Scan)
      → IsOneClass c s.store
      → Distinct (pool c s)
      → Distinct (pool c (expire_from start xs s))
  unfolding expire_from
  Distinct-pool-expire_from [] s one d = rw (pool-active c s []) d
  Distinct-pool-expire_from (a ∷ xs) s one d = elim (Bool-cases (ltb (s.store a).end_point start)) [
    | inl gone ↦ rw gone (
        Distinct-pool-expire_from xs (released a s) (rw (store-released a s) one)
          (Distinct-pool-released a s one d))
    | inr stays ↦
        let rest = expire_from start xs s in
        rw (stays, pool-active c rest (a ∷ rest.active)) (Distinct-pool-expire_from xs s one d)
  ]
