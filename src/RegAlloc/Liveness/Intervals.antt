-- ===== src/RegAlloc/Liveness/Intervals.antt =====
-- src/backend/regalloc/LivenessAnalyzer.hpp: the intervals that are computed.
use mathlib.Core.List.{Permᴰ}
use mathlib.Core.List.Permᴰ
use lsm_toolchain.Prelude.{
  ℕ, ◌+◌, ◌≡◌, refl, ap, inl, inr, List, [], ◌∷◌, String, some, true, In-entry, arith, map, In,
  get_elem?,
}
use lsm_toolchain.Prelude.Perms.{In-Perm}
use lsm_toolchain.Ssa.{StaticType, Value, Instruction, Function, all_instructions}
use lsm_toolchain.RegAlloc.Interval.{LiveInterval, contains}
use lsm_toolchain.RegAlloc.Liveness.{
  is_read, Points, note_params, points, interval_of, compute_intervals,
}
use lsm_toolchain.RegAlloc.Liveness.Cover.{
  Covers, Early, Early-later, insert_new-bound, Covers-instructions,
}

In-map : {A B : Type 0} (g : A → B) (a : A) (xs : List A) → In a xs → In (g a) (map g xs)
In-map g a [] m = absurd m
In-map g a (x ∷ xs) (inl e) = inl (ap g e)
In-map g a (x ∷ xs) (inr m) = inr (In-map g a xs m)

Early-note_params :
    (ps : List (String × StaticType)) (p : Points) → Early 0 p → Early 0 (note_params ps p)
unfolding note_params
Early-note_params [] p h = h
Early-note_params ((n, t) ∷ ps) p h =
    Early-note_params ps _
      (record { early = λ v s e. insert_new-bound n v 0 s p.def_points h.early e })

Covers-points :
    (f : Function) (n : ℕ) (i : Instruction) (w : Value)
    → get_elem? (all_instructions f.blocks) n ≡ some i
    → In w i.operands
    → is_read w ≡ true
    → Covers w.name (1 + n) (points f)
unfolding points
Covers-points f n i w at m reads =
    Covers-instructions 1 n i w (all_instructions f.blocks) _ at reads m (
      Early-later 0 1 _ (omega arith)
        (Early-note_params f.params _ (record { early = λ v s e. absurd cc })))

contains-interval_of :
    (v : String) (k : ℕ) (p : Points) (c : Covers v k p)
    → contains (interval_of p (v, c.first)) k ≡ true
contains-interval_of v k p c = rw c.used (ground (arith, c.before, c.after))

-- Every use of a variable stands inside an interval of that variable: for the instruction at each
-- index of the function, counted over its blocks from 1, and each variable among its operands, the
-- result has an interval of the variable's name that contains the index. The order in which
-- the intervals are returned is any permutation.
pub uses_contained :
    (arrange : List LiveInterval → List LiveInterval)
    (permutes : (xs : List LiveInterval) → Permᴰ (arrange xs) xs) (f : Function) (n : ℕ)
    (i : Instruction) (w : Value)
    → get_elem? (all_instructions f.blocks) n ≡ some i
    → In w i.operands
    → is_read w ≡ true
    → (l : LiveInterval) × In l (compute_intervals arrange f)
      × (l.var_name ≡ w.name)
      × (contains l (1 + n) ≡ true)
unfolding compute_intervals
uses_contained arrange permutes f n i w at m reads =
    let c = Covers-points f n i w at m reads in
    let p = points f in
    (
      interval_of p (w.name, c.first),
      In-Perm _ (Permᴰ.symm (permutes _)) (
          In-map (interval_of p) (w.name, c.first) p.def_points
            (In-entry w.name c.first p.def_points c.defined)),
      refl,
      contains-interval_of w.name (1 + n) p c,
    )
