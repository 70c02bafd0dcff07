-- ===== src/RegAlloc/Liveness/Cover.antt =====
-- src/backend/regalloc/LivenessAnalyzer.hpp: an interval reaches over every use of its variable.
use lsm_toolchain.Prelude.{
  ℕ, zero, suc, subst, get_elem?, ◌+◌, ◌≤◌, ◌≡◌, refl, sym, ap, ◌∙◌, inl, inr, List, [], ◌∷◌,
  String, none, some, true, str_eq, entry, entry-same, arith, Bool-cases, Option-cases, In, eq_iff,
}
use lsm_toolchain.Ssa.{Value, Instruction, is_named}
use lsm_toolchain.RegAlloc.Liveness.{
  is_read, Points, insert_new, note_use, note_uses, note_result, note_instructions,
}

-- The variable is defined at `k` or before, and its last use is at `k` or later.
pub record Covers (v : String) (k : ℕ) (p : Points) : Type 0 where
  pub first : ℕ
  pub last : ℕ
  pub defined : entry v p.def_points ≡ some first
  pub used : entry v p.last_use_points ≡ some last
  pub before : first ≤ k
  pub after : k ≤ last

-- No definition point is later than `k`.
pub record Early (k : ℕ) (p : Points) : Type 0 where
  pub early : (v : String) (s : ℕ) → entry v p.def_points ≡ some s → s ≤ k

pub Early-later : (k n : ℕ) (p : Points) → k ≤ n → Early k p → Early n p
Early-later k n p le h = record { early = λ v s e. omega (arith, h.early v s e) }

insert_new-new :
    (k : String) (n : ℕ) (m : List (String × ℕ)) → entry k m ≡ none → insert_new k n m ≡ (k, n) ∷ m
unfolding insert_new
insert_new-new k n m h = rw (h, insert_new) refl

insert_new-old :
    (k : String) (n o : ℕ) (m : List (String × ℕ)) → entry k m ≡ some o → insert_new k n m ≡ m
unfolding insert_new
insert_new-old k n o m h = rw (h, insert_new) refl

insert_new-keeps :
    (k v : String) (n s : ℕ) (m : List (String × ℕ))
    → entry v m ≡ some s
    → entry v (insert_new k n m) ≡ some s
insert_new-keeps k v n s m h = elim (Option-cases (entry k m)) [
  | inl new ↦
      let e = insert_new-new k n m new in
      elim (Bool-cases (str_eq k v)) [
        | inl same ↦ absurd (let e' : k ≡ v = (eq_iff k v).0 same in cc)
        | inr other ↦ ap (entry v) e ∙ rw other h
      ]
  | inr (old, there) ↦ ap (entry v) (insert_new-old k n old m there) ∙ h
]

pub insert_new-bound :
    (k v : String) (n s : ℕ) (m : List (String × ℕ))
    → ((u : String) (t : ℕ) → entry u m ≡ some t → t ≤ n)
    → entry v (insert_new k n m) ≡ some s
    → s ≤ n
insert_new-bound k v n s m bound h = elim (Option-cases (entry k m)) [
  | inl new ↦
      let there : entry v ((k, n) ∷ m) ≡ some s =
        sym (ap (entry v) (insert_new-new k n m new)) ∙ h in
      elim (Bool-cases (str_eq k v)) [
        | inl same ↦
            let there' : some n ≡ some s = rw same at there in
            let e : n ≡ s = cc in omega (arith, e)
        | inr other ↦ bound v s (rw other at there)
      ]
  | inr (old, there) ↦ bound v s (sym (ap (entry v) (insert_new-old k n old m there)) ∙ h)
]

insert_new-there :
    (k : String) (n : ℕ) (m : List (String × ℕ)) → (s : ℕ) × (entry k (insert_new k n m) ≡ some s)
insert_new-there k n m = elim (Option-cases (entry k m)) [
  | inl new ↦ (n, ap (entry k) (insert_new-new k n m new) ∙ entry-same k n m)
  | inr (old, there) ↦ (old, ap (entry k) (insert_new-old k n old m there) ∙ there)
]

-- the entry of a use, in front
front-later :
    (v w : String) (k n last : ℕ) (m : List (String × ℕ))
    → k ≤ n
    → k ≤ last
    → entry v m ≡ some last
    → (l : ℕ) × (entry v ((w, n) ∷ m) ≡ some l) × (k ≤ l)
front-later v w k n last m le after h = elim (Bool-cases (str_eq w v)) [
  | inl same ↦ (n, rw same refl, le)
  | inr other ↦ (last, rw other h, after)
]

-- A later use or definition leaves the variable covered at `k`.
Covers-note_use :
    (v : String) (k n : ℕ) (w : Value) (p : Points)
    → k ≤ n
    → Covers v k p
    → Covers v k (note_use n w p)
unfolding note_use
Covers-note_use v k n w p le c = elim (Bool-cases (is_read w)) [
  | inr skip ↦ rw (skip, note_use) c
  | inl reads ↦
      let (l, found, later) = front-later v w.name k n c.last p.last_use_points le c.after c.used in
      rw (reads, note_use)
        (record {
          first = c.first;
          last = l;
          defined = insert_new-keeps w.name v n c.first p.def_points c.defined;
          used = found;
          before = c.before;
          after = later;
        })
]

Covers-note_uses :
    (v : String) (k n : ℕ) (ws : List Value) (p : Points)
    → k ≤ n
    → Covers v k p
    → Covers v k (note_uses n ws p)
unfolding note_uses
Covers-note_uses v k n [] p le c = c
Covers-note_uses v k n (w ∷ ws) p le c =
    Covers-note_uses v k n ws (note_use n w p) le (Covers-note_use v k n w p le c)

Covers-note_result :
    (v : String) (k n : ℕ) (i : Instruction) (p : Points)
    → Covers v k p
    → Covers v k (note_result n i p)
unfolding note_result
Covers-note_result v k n i p c = elim (Bool-cases (is_named i)) [
  | inr skip ↦ rw (skip, note_result) c
  | inl named ↦
      rw (named, note_result)
        (record {
          first = c.first;
          last = c.last;
          defined = insert_new-keeps i.result.name v n c.first p.def_points c.defined;
          used = insert_new-keeps i.result.name v n c.last p.last_use_points c.used;
          before = c.before;
          after = c.after;
        })
]

Covers-note_instructions :
    (v : String) (k n : ℕ) (is : List Instruction) (p : Points)
    → k ≤ n
    → Covers v k p
    → Covers v k (note_instructions n is p)
unfolding note_instructions
Covers-note_instructions v k n [] p le c = c
Covers-note_instructions v k n (i ∷ is) p le c =
    Covers-note_instructions v k (n + 1) is _ (omega arith)
      (Covers-note_result v k n i _ (Covers-note_uses v k n i.operands p le c))

Early-note_use : (n : ℕ) (w : Value) (p : Points) → Early n p → Early n (note_use n w p)
unfolding note_use
Early-note_use n w p h = elim (Bool-cases (is_read w)) [
  | inr skip ↦ rw (skip, note_use) h
  | inl reads ↦
      rw (reads, note_use)
        (record { early = λ v s e. insert_new-bound w.name v n s p.def_points h.early e })
]

Early-note_uses : (n : ℕ) (ws : List Value) (p : Points) → Early n p → Early n (note_uses n ws p)
unfolding note_uses
Early-note_uses n [] p h = h
Early-note_uses n (w ∷ ws) p h = Early-note_uses n ws _ (Early-note_use n w p h)

Early-note_result : (n : ℕ) (i : Instruction) (p : Points) → Early n p → Early n (note_result n i p)
unfolding note_result
Early-note_result n i p h = elim (Bool-cases (is_named i)) [
  | inr skip ↦ rw (skip, note_result) h
  | inl named ↦
      rw (named, note_result)
        (record { early = λ v s e. insert_new-bound i.result.name v n s p.def_points h.early e })
]

-- the use itself
Covers-use :
    (n : ℕ) (w : Value) (p : Points)
    → is_read w ≡ true
    → Early n p
    → Covers w.name n (note_use n w p)
unfolding note_use
Covers-use n w p reads h =
    let (s, there) = insert_new-there w.name n p.def_points in
    rw (reads, note_use)
      (record {
        first = s;
        last = n;
        defined = there;
        used = entry-same w.name n p.last_use_points;
        before = insert_new-bound w.name w.name n s p.def_points h.early there;
        after = omega arith;
      })

Covers-uses :
    (n : ℕ) (w : Value) (ws : List Value) (p : Points)
    → is_read w ≡ true
    → In w ws
    → Early n p
    → Covers w.name n (note_uses n ws p)
unfolding note_uses
Covers-uses n w [] p reads m h = absurd m
Covers-uses n w (u ∷ us) p reads (inl same) h =
    Covers-note_uses w.name n n us (note_use n u p) (omega arith)
      (subst (λ (x : Value). Covers w.name n (note_use n x p)) same (Covers-use n w p reads h))
Covers-uses n w (u ∷ us) p reads (inr m) h =
    Covers-uses n w us (note_use n u p) reads m (Early-note_use n u p h)

pub Covers-instructions :
    (k n : ℕ) (i : Instruction) (w : Value) (is : List Instruction) (p : Points)
    → get_elem? is n ≡ some i
    → is_read w ≡ true
    → In w i.operands
    → Early k p
    → Covers w.name (k + n) (note_instructions k is p)
unfolding note_instructions
Covers-instructions k n i w [] p at reads m h = absurd cc
Covers-instructions k zero i w (j ∷ js) p at reads m h =
    let same : j ≡ i = cc in
    let m' : In w j.operands = subst (λ (x : Instruction). In w x.operands) (sym same) m in
    let here : k + 0 ≡ k = omega arith in
    rw here (
      Covers-note_instructions w.name k (k + 1) js _ (omega arith)
        (Covers-note_result w.name k k j _ (Covers-uses k w j.operands p reads m' h)))
Covers-instructions k (suc n) i w (j ∷ js) p at reads m h =
    let next : k + suc n ≡ k + 1 + n = omega arith in
    let h' = Early-note_result k j _ (Early-note_uses k j.operands p h) in
    rw next
      (Covers-instructions (k + 1) n i w js _ at reads m (Early-later k (k + 1) _ (omega arith) h'))
