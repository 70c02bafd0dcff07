-- ===== src/Tests/RegAlloc.antt =====
-- The theorems about src/backend/regalloc at small inputs.
use mathlib.Core.List.{Permᴰ}
use mathlib.Core.List.Permᴰ
use lsm_toolchain.Prelude.{
  ℕ, ◌+◌, ◌-◌, ◌≤◌, ◌<◌, ◌≡◌, ◌≢◌, ◌⊎◌, inl, inr, refl, true, false, none, some, List, [], ◌∷◌,
  if◌then◌else◌, ◌==◌, leb, arith, Bool-cases,
}
use lsm_toolchain.Ssa.{StaticType, ArchType}
use lsm_toolchain.RegAlloc.Interval.{is_float}
use lsm_toolchain.RegAlloc.LinearScan.{Store, scanned, allocate}
use lsm_toolchain.RegAlloc.LinearScan.Good.{IsSort}
use lsm_toolchain.RegAlloc.LinearScan.Safe.{allocate_safe}
use lsm_toolchain.RegAlloc.LinearScan.Slots.{Holds, allocate_settled}

-- insertion sort stands for `std::sort`
abbrev insert : (ℕ → ℕ) → ℕ → List ℕ → List ℕ
insert key a [] = a ∷ []
insert key a (x ∷ xs) =
    let rest = insert key a xs in if leb (key a) (key x) then a ∷ x ∷ xs else x ∷ rest

abbrev insertion_sort : (ℕ → ℕ) → List ℕ → List ℕ
insertion_sort key [] = []
insertion_sort key (x ∷ xs) = insert key x (insertion_sort key xs)

insert-Perm : (key : ℕ → ℕ) (a : ℕ) (xs : List ℕ) → Permᴰ (insert key a xs) (a ∷ xs)
insert-Perm key a [] = Permᴰ.cons refl Permᴰ.nil
insert-Perm key a (x ∷ xs) = elim (Bool-cases (leb (key a) (key x))) [
  | inl e ↦ rw e (Permᴰ.refl (a ∷ x ∷ xs))
  | inr e ↦ rw e (Permᴰ.trans (Permᴰ.cons refl (insert-Perm key a xs)) (Permᴰ.swap refl refl))
]

insertion_sort-Perm : (key : ℕ → ℕ) (xs : List ℕ) → Permᴰ (insertion_sort key xs) xs
insertion_sort-Perm key [] = Permᴰ.nil
insertion_sort-Perm key (x ∷ xs) =
    Permᴰ.trans (insert-Perm key x (insertion_sort key xs))
      (Permᴰ.cons refl (insertion_sort-Perm key xs))

insertion_sort-IsSort : IsSort insertion_sort
insertion_sort-IsSort = record { permutes = insertion_sort-Perm }

-- integer intervals, each inside the one before
abbrev nested : Store
nested i = record {
  var_name = "v";
  type = StaticType.int64;
  start_point = i;
  end_point = 100 - i;
  is_spilled = false;
  stack_offset = 0;
  assigned = none;
}

-- Nine of them on x86-64: the last two take the registers of the first two.
nested-reg_2 : ((scanned insertion_sort ArchType.x86_64 9 nested).store 2).assigned ≡ some 13
unfolding scanned is_float
nested-reg_2 = refl

nested-reg_7 : ((scanned insertion_sort ArchType.x86_64 9 nested).store 7).assigned ≡ some 15
unfolding scanned is_float
nested-reg_7 = refl

-- eight bytes for each of the first two
nested-bytes : (allocate insertion_sort ArchType.x86_64 9 nested).total_stack_spill_bytes ≡ 16
unfolding allocate is_float
nested-bytes = refl

allocate_safe_example : ◌≢◌ {A = ℕ} 13 15
unfolding is_float
allocate_safe_example =
    allocate_safe insertion_sort ArchType.x86_64 false 9 nested 2 7 13 15 insertion_sort-IsSort
      (λ i. refl) (λ k. refl) (λ k l le lt. le) (omega arith) (omega arith) (omega arith) refl
      nested-reg_2 nested-reg_7

allocate_settled_example :
    ((i : ℕ)
      → i < 9
      → (((scanned insertion_sort ArchType.x86_64 9 nested).store i).is_spilled ≡ true)
        ⊎ Holds (scanned insertion_sort ArchType.x86_64 9 nested).store i)
    × ((i : ℕ)
        → ((scanned insertion_sort ArchType.x86_64 9 nested).store i).is_spilled ≡ true
        → (8 ≤ ((scanned insertion_sort ArchType.x86_64 9 nested).store i).stack_offset)
          × (((scanned insertion_sort ArchType.x86_64 9 nested).store i).stack_offset
              ≤ (allocate insertion_sort ArchType.x86_64 9 nested).total_stack_spill_bytes))
    × ((i j : ℕ)
        → i ≢ j
        → ((scanned insertion_sort ArchType.x86_64 9 nested).store i).is_spilled ≡ true
        → ((scanned insertion_sort ArchType.x86_64 9 nested).store j).is_spilled ≡ true
        → (((scanned insertion_sort ArchType.x86_64 9 nested).store i).stack_offset + 8
            ≤ ((scanned insertion_sort ArchType.x86_64 9 nested).store j).stack_offset)
          ⊎ (((scanned insertion_sort ArchType.x86_64 9 nested).store j).stack_offset + 8
              ≤ ((scanned insertion_sort ArchType.x86_64 9 nested).store i).stack_offset))
allocate_settled_example =
    allocate_settled insertion_sort ArchType.x86_64 9 nested insertion_sort-IsSort (λ k. refl)

-- one integer interval that ends last, and floats behind it
abbrev mixed : Store
mixed i = record {
  var_name = "v";
  type = if i == 0 then StaticType.int64 else StaticType.float64;
  start_point = i;
  end_point = if i == 0 then 100 else 50;
  is_spilled = false;
  stack_offset = 0;
  assigned = none;
}

-- The fifteenth float steals the integer's register 15, which is the number of the first float's.
mixed-reg_1 : ((scanned insertion_sort ArchType.x86_64 16 mixed).store 1).assigned ≡ some 15
unfolding scanned is_float
mixed-reg_1 = refl

mixed-reg_15 : ((scanned insertion_sort ArchType.x86_64 16 mixed).store 15).assigned ≡ some 15
unfolding scanned is_float
mixed-reg_15 = refl
