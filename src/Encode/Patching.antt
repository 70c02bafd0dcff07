-- ===== src/Encode/Patching.antt =====
-- src/backend: the final loop of an encoder over its jump patches.
use lsm_toolchain.Prelude.{
  ℕ, ◌+◌, ◌≤◌, ◌<◌, ◌≡◌, refl, sym, ap, subst, ◌∙◌, ◌⊎◌, inl, inr, List, [], ◌∷◌, ◌++◌, String,
  some, length, arith, In, All, Option-cases,
}
use lsm_toolchain.Encode.{Patch, entry, write_at, patch_one, patch_all}
use lsm_toolchain.Encode.Bytes.{
  byte_at, word_at, length-write_at, write_at-outside, word_at-outside,
}

-- The patches stand in order between two offsets, four bytes each.
abbrev pub Spaced : ℕ → List Patch → ℕ → Type 0
Spaced lo [] hi = lo ≤ hi
Spaced lo (p ∷ ps) hi = (lo ≤ p.location) × Spaced (p.location + 4) ps hi

pub Spaced-snoc :
    (lo hi top : ℕ) (ps : List Patch) (p : Patch)
    → Spaced lo ps hi
    → hi ≤ p.location
    → p.location + 4 ≤ top
    → Spaced lo (ps ++ (p ∷ [])) top
Spaced-snoc lo hi top [] p h le end_ = omega arith
Spaced-snoc lo hi top (q ∷ ps) p h le end_ =
    (h.0, Spaced-snoc (q.location + 4) hi top ps p h.1 le end_)

pub Spaced-later : (lo hi top : ℕ) (ps : List Patch) → Spaced lo ps hi → hi ≤ top → Spaced lo ps top
Spaced-later lo hi top [] h le = omega arith
Spaced-later lo hi top (p ∷ ps) h le = (h.0, Spaced-later (p.location + 4) hi top ps h.1 le)

pub Spaced-le : (lo hi : ℕ) (ps : List Patch) → Spaced lo ps hi → lo ≤ hi
Spaced-le lo hi [] h = h
Spaced-le lo hi (p ∷ ps) h = omega (arith, Spaced-le (p.location + 4) hi ps h.1, h.0)

pub Spaced-In :
    (lo hi : ℕ) (ps : List Patch) (p : Patch)
    → Spaced lo ps hi
    → In p ps
    → (lo ≤ p.location) × (p.location + 4 ≤ hi)
Spaced-In lo hi [] p h m = absurd m
Spaced-In lo hi (q ∷ ps) p h (inl e) =
    subst (λ (r : Patch). (lo ≤ r.location) × (r.location + 4 ≤ hi)) (sym e)
      (h.0, Spaced-le (q.location + 4) hi ps h.1)
Spaced-In lo hi (q ∷ ps) p h (inr m) =
    let (a, b) = Spaced-In (q.location + 4) hi ps p h.1 m in (omega (arith, h.0), b)

module _ (field : Patch → ℕ → List ℕ → List ℕ) (blocks : List (String × ℕ))
    (four : (p : Patch) (t : ℕ) (c : List ℕ) → length (field p t c) ≡ 4) where
  length-patch_one :
      (p : Patch) (code : List ℕ) → length (patch_one field blocks p code) ≡ length code
  unfolding patch_one
  length-patch_one p code = elim (Option-cases (entry p.label blocks)) [
    | inl e ↦ rw (e, patch_one) refl
    | inr (t, e) ↦ rw (e, patch_one) (length-write_at p.location (field p t code) code)
  ]

  pub length-patch_all :
      (ps : List Patch) (code : List ℕ) → length (patch_all field blocks ps code) ≡ length code
  unfolding patch_all
  length-patch_all [] code = refl
  length-patch_all (p ∷ ps) code =
      length-patch_all ps (patch_one field blocks p code) ∙ length-patch_one p code

  byte_at-patch_one :
      (p : Patch) (code : List ℕ) (j : ℕ)
      → (j < p.location) ⊎ (p.location + 4 ≤ j)
      → byte_at (patch_one field blocks p code) j ≡ byte_at code j
  unfolding patch_one
  byte_at-patch_one p code j h = elim (Option-cases (entry p.label blocks)) [
    | inl e ↦ rw (e, patch_one) refl
    | inr (t, e) ↦
        rw (e, patch_one)
          (write_at-outside p.location j (field p t code) code
            (subst (λ n. (j < p.location) ⊎ (p.location + n ≤ j)) (sym (four p t code)) h))
  ]

  -- a byte that no patch holds
  pub byte_at-patch_all :
      (ps : List Patch) (code : List ℕ) (j : ℕ)
      → All (λ p. (j < p.location) ⊎ (p.location + 4 ≤ j)) ps
      → byte_at (patch_all field blocks ps code) j ≡ byte_at code j
  unfolding patch_all
  byte_at-patch_all [] code j h = refl
  byte_at-patch_all (p ∷ ps) code j h =
      byte_at-patch_all ps (patch_one field blocks p code) j h.1 ∙ byte_at-patch_one p code j h.0

  word_at-patch_one :
      (p : Patch) (code : List ℕ) (j : ℕ)
      → (j + 4 ≤ p.location) ⊎ (p.location + 4 ≤ j)
      → word_at (patch_one field blocks p code) j ≡ word_at code j
  unfolding patch_one
  word_at-patch_one p code j h = elim (Option-cases (entry p.label blocks)) [
    | inl e ↦ rw (e, patch_one) refl
    | inr (t, e) ↦
        rw (e, patch_one)
          (word_at-outside p.location j (field p t code) code
            (subst (λ n. (j + 4 ≤ p.location) ⊎ (p.location + n ≤ j)) (sym (four p t code)) h))
  ]

  word_at-before :
      (ps : List Patch) (code : List ℕ) (lo hi j : ℕ)
      → Spaced lo ps hi
      → j + 4 ≤ lo
      → word_at (patch_all field blocks ps code) j ≡ word_at code j
  unfolding patch_all
  word_at-before [] code lo hi j h le = refl
  word_at-before (p ∷ ps) code lo hi j h le =
      word_at-before ps (patch_one field blocks p code) (p.location + 4) hi j h.1
        (omega (arith, h.0))
      ∙ word_at-patch_one p code j (inl (omega (arith, h.0)))

  -- At a patch's place, with the code before its turn: the place is as it was in the first code.
  pub word_at-patch_all :
      (ps : List Patch) (code : List ℕ) (lo hi t : ℕ) (p : Patch)
      → Spaced lo ps hi
      → In p ps
      → entry p.label blocks ≡ some t
      → (c : List ℕ) × (length c ≡ length code)
        × (word_at c p.location ≡ word_at code p.location)
        × (word_at (patch_all field blocks ps code) p.location
            ≡ word_at (write_at p.location (field p t c) c) p.location)
  unfolding patch_all
  word_at-patch_all [] code lo hi t p h m e = absurd m
  word_at-patch_all (q ∷ ps) code lo hi t p h (inl same) e = (
    code,
    refl,
    refl,
    word_at-before ps (patch_one field blocks q code) (q.location + 4) hi p.location h.1
          (omega (arith, ap (λ (r : Patch). r.location) same))
        ∙ ap (λ c. word_at c p.location) (turn q same),
  )
    where
      turn :
          (q : Patch)
          → p ≡ q
          → patch_one field blocks q code ≡ write_at p.location (field p t code) code
      turn q same =
          ap (λ r. patch_one field blocks r code) (sym same)
          ∙ (unfold patch_one in rw (e, patch_one) refl)
  word_at-patch_all (q ∷ ps) code lo hi t p h (inr m) e =
      let (above, _) = Spaced-In (q.location + 4) hi ps p h.1 m in
      let (c, len, old, new) =
        word_at-patch_all ps (patch_one field blocks q code) (q.location + 4) hi t p h.1 m e in
      (c, len ∙ length-patch_one q code, old ∙ word_at-patch_one q code p.location (inr above), new)
