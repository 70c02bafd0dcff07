-- ===== src/Core/Utils/Pools.antt =====
-- src/core/Utils.hpp: the pool of interned strings.
use lsm_toolchain.Prelude.{
  ℕ, ◌≡◌, ◌≢◌, refl, sym, ap, ◌∙◌, List, [], ◌∷◌, none, some, Option-cases, inl, inr, ◌==◌,
  Bool-cases, ==_iff,
}
use lsm_toolchain.Core.Utils.{Pool, Pooled, find, intern, hash_string}

-- the pool after more strings, each with the place of its node if it needs one
pub intern_each : List (ℕ × List ℕ) → Pool → Pool
intern_each [] p = p
intern_each ((place, str) ∷ rest) p = intern_each rest (intern place str p).1

-- What is in the pool stays as it is when another string is interned.
find-intern :
    (h place : ℕ) (str : List ℕ) (p : Pool) (s : Pooled)
    → find h p ≡ some s
    → find h (intern place str p).1 ≡ some s
unfolding intern find
find-intern h place str p s there = elim (Option-cases (find (hash_string str) p)) [
  | inr (t, old) ↦ rw (old, intern) there
  | inl new ↦ elim (Bool-cases (hash_string str == h)) [
    | inl same ↦
        let e : hash_string str ≡ h = (==_iff (hash_string str) h).0 same in
        let t : find (hash_string str) p ≡ some s = ap (λ k. find k p) e ∙ there in cc
    | inr other ↦ rw (new, intern) (rw other there)
  ]
]

find-intern_each :
    (h : ℕ) (later : List (ℕ × List ℕ)) (p : Pool) (s : Pooled)
    → find h p ≡ some s
    → find h (intern_each later p) ≡ some s
unfolding intern_each
find-intern_each h [] p s there = there
find-intern_each h ((place, str) ∷ rest) p s there =
    find-intern_each h rest (intern place str p).1 s (find-intern h place str p s there)

-- what `intern` returned is the address that the pool has for the string
find-here :
    (place : ℕ) (str : List ℕ) (p : Pool)
    → (s : Pooled) × (find (hash_string str) (intern place str p).1 ≡ some s)
      × ((intern place str p).0 ≡ s.address)
unfolding intern find
find-here place str p = elim (Option-cases (find (hash_string str) p)) [
  | inl new ↦ (
    record { address = place; bytes = str },
    rw (new, intern) (rw ((==_iff (hash_string str) (hash_string str)).1 refl) refl),
    rw (new, intern) refl,
  )
  | inr (s, old) ↦ (s, rw (old, intern) old, rw (old, intern) refl)
]

intern-found :
    (place : ℕ) (str : List ℕ) (p : Pool) (s : Pooled)
    → find (hash_string str) p ≡ some s
    → intern place str p ≡ (s.address, p)
unfolding intern
intern-found place str p s there = rw (there, intern) refl

-- The pointer that `intern` returned for a string can be kept: whatever strings are interned later,
-- the pool has at that address the bytes that it had there, and interning the string again returns
-- the same address and changes nothing.
pub intern_stable :
    (place again : ℕ) (str : List ℕ) (later : List (ℕ × List ℕ)) (p : Pool)
    → let (ptr, p1) = intern place str p in
      let p2 = intern_each later p1 in
      (find (hash_string str) p2 ≡ find (hash_string str) p1)
      × (s : Pooled) × (find (hash_string str) p2 ≡ some s)
      × (s.address ≡ ptr)
      × (intern again str p2 ≡ (ptr, p2))
intern_stable place again str later p =
    let (s, here, ptr) = find-here place str p in
    let kept = find-intern_each (hash_string str) later (intern place str p).1 s here in
    (
      kept ∙ sym here,
      s,
      kept,
      sym ptr,
      intern-found again str (intern_each later (intern place str p).1) s kept
          ∙ ap (λ a. (a, intern_each later (intern place str p).1)) (sym ptr),
    )

-- The pool compares hashes only: of two different strings with one hash, interning the second gives
-- the address of the first, and the pool has the first's bytes there, which are not the second's.
pub intern_collision :
    (place other : ℕ) (first second : List ℕ) (p : Pool)
    → find (hash_string first) p ≡ none
    → hash_string second ≡ hash_string first
    → first ≢ second
    → let (ptr, p1) = intern place first p in
      (s : Pooled) × (intern other second p1 ≡ (ptr, p1))
      × (find (hash_string second) p1 ≡ some s)
      × (s.address ≡ ptr)
      × (s.bytes ≡ first)
      × (s.bytes ≢ second)
unfolding intern find
intern_collision place other first second p new same differ =
    let s : Pooled = record { address = place; bytes = first } in
    let p1 = (hash_string first, s) ∷ p in
    let made : intern place first p ≡ (place, p1) = rw (new, intern) refl in
    let here : find (hash_string second) p1 ≡ some s =
      rw (same, (==_iff (hash_string first) (hash_string first)).1 refl) refl in
    rw made (s, intern-found other second p1 s here, here, refl, refl, differ)
