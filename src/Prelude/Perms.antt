-- ===== src/Prelude/Perms.antt =====
-- Permutations as the library's family, and what they keep.
use mathlib.Core.Path.{◌≡◌, refl, sym, subst, ◌∙◌}
use mathlib.Core.Logic.{◌⊎◌, inl, inr}
use mathlib.Core.List.{List, [], ◌∷◌, ◌++◌, Permᴰ}
use mathlib.Core.List.Permᴰ
use lsm_toolchain.Prelude.Names.{In-append_left}
use lsm_toolchain.Prelude.Lists.{In, Distinct}

module _ {A : Type 0} where
  pub In-Perm : {xs ys : List A} (a : A) → Permᴰ xs ys → In a xs → In a ys
  In-Perm a Permᴰ.nil m = m
  In-Perm a (Permᴰ.cons e p) (inl h) = inl (h ∙ e)
  In-Perm a (Permᴰ.cons e p) (inr m) = inr (In-Perm a p m)
  In-Perm a (Permᴰ.swap e f) (inl h) = inr (inl (h ∙ e))
  In-Perm a (Permᴰ.swap e f) (inr (inl h)) = inl (h ∙ f)
  In-Perm a (Permᴰ.swap e f) (inr (inr m)) = inr (inr m)
  In-Perm a (Permᴰ.trans p q) m = In-Perm a q (In-Perm a p m)

  pub In-snoc : (a x : A) (xs : List A) → In a (xs ++ (x ∷ [])) → In a xs ⊎ (a ≡ x)
  In-snoc a x [] (inl e) = inr e
  In-snoc a x [] (inr m) = absurd m
  In-snoc a x (y ∷ ys) (inl e) = inl (inl e)
  In-snoc a x (y ∷ ys) (inr m) = elim (In-snoc a x ys m) [ inl n ↦ inl (inr n) | inr e ↦ inr e ]

  pub In_last : (x : A) (xs : List A) → In x (xs ++ (x ∷ []))
  In_last x [] = inl refl
  In_last x (y ∷ ys) = inr (In_last x ys)

  pub Distinct-snoc : (x : A) (xs : List A) → Distinct xs → ¬ (In x xs) → Distinct (xs ++ (x ∷ []))
  Distinct-snoc x [] d n = (λ m. m, tt)
  Distinct-snoc x (y ∷ ys) d n = (
    λ m. elim (In-snoc y x ys m) [ inl k ↦ d.0 k | inr e ↦ n (inl (sym e)) ],
    Distinct-snoc x ys d.1 (λ m. n (inr m)),
  )

  -- The last of distinct elements is not among the others.
  pub Distinct-front : (x : A) (xs : List A) → Distinct (xs ++ (x ∷ [])) → Distinct xs × ¬ (In x xs)
  Distinct-front x [] d = (tt, λ m. m)
  Distinct-front x (y ∷ ys) d =
      let (e, n) = Distinct-front x ys d.1 in
      (
        (λ m. d.0 (In-append_left y ys (x ∷ []) m), e),
        λ m. elim m [
          | inl h ↦ d.0 (subst (λ z. In z (ys ++ (x ∷ []))) h (In_last x ys))
          | inr k ↦ n k
        ],
      )

  pub Distinct-Perm : {xs ys : List A} → Permᴰ xs ys → Distinct xs → Distinct ys
  Distinct-Perm Permᴰ.nil d = d
  Distinct-Perm (Permᴰ.cons {b = b} {l₁ = xs} e p) d =
      (λ m. d.0 (subst (λ z. In z xs) (sym e) (In-Perm b (Permᴰ.symm p) m)), Distinct-Perm p d.1)
  Distinct-Perm (Permᴰ.swap {l = l} e f) d = (
    λ m. elim m [
      | inl h ↦ d.0 (inl (e ∙ sym h ∙ sym f))
      | inr n ↦ d.1.0 (subst (λ z. In z l) (sym f) n)
    ],
    (λ n. d.0 (inr (subst (λ z. In z l) (sym e) n)), d.1.1),
  )
  Distinct-Perm (Permᴰ.trans p q) d = Distinct-Perm q (Distinct-Perm p d)
