-- ===== src/Prelude/Names.antt =====
-- Sets of names, as the passes keep them in `unordered_set<string>`.
use mathlib.Core.Path.{◌≡◌, refl, sym}
use mathlib.Core.Logic.{◌↔◌, inl, inr, ◌≢◌}
use mathlib.Core.Bool.{Bool, true, false, ◌||◌}
use mathlib.Core.List.{List, [], ◌∷◌, ◌++◌}
use mathlib.Core.Option.{Option, none, some}
use native.Mathlib.Omega.{arith}
use Prim.Native.String.{String}
use text.Mathlib.Text.{◌==◌}
use text.Mathlib.TextEquality.{eq_iff}
use lsm_toolchain.Prelude.Lists.{In}
use lsm_toolchain.Prelude.Tests.{Bool-cases, if◌then◌else◌}

abbrev pub str_eq : String → String → Bool
str_eq a b = a == b

pub str_eq_refl : (a : String) → str_eq a a ≡ true
str_eq_refl a = (eq_iff a a).1 refl

pub str_eq_ne : (a b : String) → a ≢ b → str_eq a b ≡ false
str_eq_ne a b h = elim (Bool-cases (str_eq a b)) [
  | inl e ↦ absurd (h ((eq_iff a b).0 e))
  | inr e ↦ e
]

pub str_eq_false : (a b : String) → str_eq a b ≡ false → a ≢ b
str_eq_false a b h e = let t : str_eq a b ≡ true = (eq_iff a b).1 e in absurd cc

-- An entry of an `unordered_map`; a later entry of a key stands in front.
abbrev pub entry {ℓ} : {V : Type ℓ} → String → List (String × V) → Option V
entry k [] = none
entry k ((j, v) ∷ m) = if str_eq j k then some v else entry k m

pub entry-same {ℓ} :
    {V : Type ℓ} (k : String) (v : V) (m : List (String × V)) → entry k ((k, v) ∷ m) ≡ some v
entry-same k v m = rw (str_eq_refl k) refl

pub entry-other {ℓ} :
    {V : Type ℓ} (j k : String) (v : V) (m : List (String × V))
    → j ≢ k
    → entry k ((j, v) ∷ m) ≡ entry k m
entry-other j k v m h = rw (str_eq_ne j k h) refl

-- what a map holds, it holds for a key
pub In-entry :
    {V : Type 0} (k : String) (v : V) (m : List (String × V)) → entry k m ≡ some v → In (k, v) m
In-entry k v [] h = absurd cc
In-entry k v ((j, u) ∷ m) h = elim (Bool-cases (str_eq j k)) [
  | inl here ↦ let key : j ≡ k = (eq_iff j k).0 here in let val : u ≡ v = cc in inl (cc)
  | inr there ↦ inr (In-entry k v m (rw there at h))
]

-- `count`, as a test
abbrev pub mem : String → List String → Bool
mem a [] = false
mem a (x ∷ xs) = str_eq x a || mem a xs

pub mem_iff : (a : String) (xs : List String) → (mem a xs ≡ true) ↔ In a xs
mem_iff a [] = (λ e. cc, λ m. absurd m)
mem_iff a (x ∷ xs) = (
  λ e. elim (Bool-cases (str_eq x a)) [
    | inl same ↦ inl (sym ((eq_iff x a).0 same))
    | inr other ↦ inr ((mem_iff a xs).0 (rw other at e))
  ],
  λ m. elim m [
    | inl same ↦ ground (arith, (eq_iff x a).1 (sym same))
    | inr rest ↦ ground (arith, (mem_iff a xs).1 rest)
  ],
)

pub In-append_left : {A : Type 0} (a : A) (xs ys : List A) → In a xs → In a (xs ++ ys)
In-append_left a [] ys m = absurd m
In-append_left a (x ∷ xs) ys (inl e) = inl e
In-append_left a (x ∷ xs) ys (inr m) = inr (In-append_left a xs ys m)

pub In-append_right : {A : Type 0} (a : A) (xs ys : List A) → In a ys → In a (xs ++ ys)
In-append_right a [] ys m = m
In-append_right a (x ∷ xs) ys m = inr (In-append_right a xs ys m)
