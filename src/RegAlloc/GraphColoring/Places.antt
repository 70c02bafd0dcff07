-- ===== src/RegAlloc/GraphColoring/Places.antt =====
-- src/backend/regalloc/GraphColoring.hpp: every variable gets a register or a slot of its own.
use lsm_toolchain.Prelude.{
  ℕ, ◌+◌, ◌%◌, ◌≤◌, ◌≡◌, ◌≢◌, refl, sym, subst, ◌∙◌, ◌⊎◌, inl, inr, List, [], ◌∷◌, String, Option,
  some, str_eq, entry, entry-same, entry-other, In, Bool-cases, Option-cases, eq_iff, arith,
}
use lsm_toolchain.Ssa.{ArchType}
use lsm_toolchain.RegAlloc.LinearScan.{AllocationResult}
use lsm_toolchain.RegAlloc.GraphColoring.{
  Node, node_of, used_colors, first_free, colors_pool, color_one, color_all,
}

abbrev pub HasPlace : String → AllocationResult → Type 0
HasPlace a r =
    ((c : ℕ) × (entry a r.var_to_reg ≡ some c)) ⊎ ((o : ℕ) × (entry a r.var_to_stack ≡ some o))

-- The slots are at multiples of 8 up to the size of the area, and apart.
pub record IsLaidOut (r : AllocationResult) : Type 0 where
  pub inside :
      (a : String) (o : ℕ)
      → entry a r.var_to_stack ≡ some o
      → (8 ≤ o) × (o ≤ r.total_stack_spill_bytes) × (o % 8 ≡ 0)
  pub apart :
      (a b : String) (o p : ℕ)
      → a ≢ b
      → entry a r.var_to_stack ≡ some o
      → entry b r.var_to_stack ≡ some p
      → o ≢ p
  pub whole : r.total_stack_spill_bytes % 8 ≡ 0

front-there :
    {V : Type 0} (k a : String) (v : V) (m : List (String × V)) (w : V)
    → entry a m ≡ some w
    → (u : V) × (entry a ((k, v) ∷ m) ≡ some u)
front-there k a v m w h = elim (Bool-cases (str_eq k a)) [
  | inl same ↦ (v, rw same refl)
  | inr other ↦ (w, rw other h)
]

module _ (arch : ArchType) (g : List Node) where
  abbrev choice : String → AllocationResult → Option ℕ
  choice n r =
      first_free (used_colors (node_of n g).neighbors r.var_to_reg)
        (colors_pool arch (node_of n g).type)

  HasPlace-same : (n : String) (r : AllocationResult) → HasPlace n (color_one arch g n r)
  unfolding color_one
  HasPlace-same n r = elim (Option-cases (choice n r)) [
    | inl none_ ↦ rw (none_, color_one) (inr (_, entry-same n _ r.var_to_stack))
    | inr (c, some_) ↦ rw (some_, color_one) (inl (c, entry-same n c r.var_to_reg))
  ]

  HasPlace-other :
      (n a : String) (r : AllocationResult) → HasPlace a r → HasPlace a (color_one arch g n r)
  unfolding color_one
  HasPlace-other n a r h = elim (Option-cases (choice n r)) [
    | inl none_ ↦
        rw (none_, color_one)
          (elim h [
            | inl reg ↦ inl reg
            | inr (o, slot) ↦ inr (front-there n a _ r.var_to_stack o slot)
          ])
    | inr (c, some_) ↦
        rw (some_, color_one)
          (elim h [
            | inl (d, reg) ↦ inl (front-there n a c r.var_to_reg d reg)
            | inr slot ↦ inr slot
          ])
  ]

  HasPlace-rest :
      (ns : List String) (a : String) (r : AllocationResult)
      → HasPlace a r
      → HasPlace a (color_all arch g ns r)
  unfolding color_all
  HasPlace-rest [] a r h = h
  HasPlace-rest (n ∷ ns) a r h = HasPlace-rest ns a (color_one arch g n r) (HasPlace-other n a r h)

  pub HasPlace-color_all :
      (ns : List String) (a : String) (r : AllocationResult)
      → In a ns
      → HasPlace a (color_all arch g ns r)
  unfolding color_all
  HasPlace-color_all [] a r m = absurd m
  HasPlace-color_all (n ∷ ns) a r (inl e) =
      HasPlace-rest ns a (color_one arch g n r)
        (subst (λ k. HasPlace k (color_one arch g n r)) (sym e) (HasPlace-same n r))
  HasPlace-color_all (n ∷ ns) a r (inr m) = HasPlace-color_all ns a (color_one arch g n r) m

  -- the next slot
  IsLaidOut-add :
      (n : String) (r : AllocationResult)
      → IsLaidOut r
      → IsLaidOut (record r {
        total_stack_spill_bytes = r.total_stack_spill_bytes + 8;
        var_to_stack = (n, r.total_stack_spill_bytes + 8) ∷ r.var_to_stack;
      })
  IsLaidOut-add n r h =
      let top = r.total_stack_spill_bytes + 8 in
      record {
        inside = λ a o e. elim (Bool-cases (str_eq n a)) [
          | inl same ↦
              let s : some top ≡ some o = rw same at e in
              let s' : top ≡ o = cc in
              (omega (arith, s'), omega (arith, s'), omega (arith, s', h.whole))
          | inr other ↦
              let (low, high, slot) = h.inside a o (rw other at e) in
              (low, omega (arith, high), slot)
        ];
        apart = λ a b o p ne ea eb. elim (Bool-cases (str_eq n a)) [
          | inl same ↦
              let s : some top ≡ some o = rw same at ea in
              let s' : top ≡ o = cc in
              let n_b : n ≢ b = λ e. ne (sym ((eq_iff n a).0 same) ∙ e) in
              let (low, high, slot) =
                h.inside b p (sym (entry-other n b top r.var_to_stack n_b) ∙ eb) in
              λ e. omega (arith, s', high, e)
          | inr other ↦
              let ea' : entry a r.var_to_stack ≡ some o = rw other at ea in
              elim (Bool-cases (str_eq n b)) [
                | inl same ↦
                    let s : some top ≡ some p = rw same at eb in
                    let s' : top ≡ p = cc in
                    let (low, high, slot) = h.inside a o ea' in λ e. omega (arith, s', high, e)
                | inr other' ↦ h.apart a b o p ne ea' (rw other' at eb)
              ]
        ];
        whole = omega (arith, h.whole);
      }

  pub IsLaidOut-color_all :
      (ns : List String) (r : AllocationResult) → IsLaidOut r → IsLaidOut (color_all arch g ns r)
  unfolding color_all color_one
  IsLaidOut-color_all [] r h = h
  IsLaidOut-color_all (n ∷ ns) r h =
      IsLaidOut-color_all ns (color_one arch g n r) (elim (Option-cases (choice n r)) [
        | inl none_ ↦ rw (none_, color_one) (IsLaidOut-add n r h)
        | inr (c, some_) ↦
            rw (some_, color_one) (record { inside = h.inside; apart = h.apart; whole = h.whole })
      ])
