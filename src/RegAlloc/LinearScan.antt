-- ===== src/RegAlloc/LinearScan.antt =====
-- src/backend/regalloc/LinearScanAllocator.hpp
-- The vector of intervals is a function of the index, and a pointer into it is an index. A free
-- pool is a stack, its `back` first. The offset of the last spill slot, zero or negative in the
-- source, is its magnitude. What `std::sort` does to the active intervals is a parameter.
pub mod Pools
pub mod Invariant
pub mod Good
pub mod Safe
pub mod Slots
use lsm_toolchain.Prelude.{
  ℕ, zero, suc, ◌+◌, ◌≤◌, ◌≡◌, Bool, true, false, String, Option, none, some, List, [], ◌∷◌, ◌++◌,
  ◌||◌, ◌==◌, ltb, if◌then◌else◌,
}
use lsm_toolchain.Ssa.{ArchType}
use lsm_toolchain.RegAlloc.Interval.{LiveInterval, is_float}

abbrev pub Store : Type 0
Store = ℕ → LiveInterval

abbrev pub update : Store → ℕ → LiveInterval → Store
update st k v = λ i. if i == k then v else st i

pub record Scan : Type 0 where
  pub free_gprs : List ℕ
  pub free_fprs : List ℕ
  pub active : List ℕ
  pub spill_offset : ℕ
  pub store : Store

-- `isFloat ? freeFPRs : freeGPRs`
abbrev pub pool : Bool → Scan → List ℕ
pool true s = s.free_fprs
pool false s = s.free_gprs

-- `std::find` in a pool
abbrev pub has : ℕ → List ℕ → Bool
has r [] = false
has r (x ∷ xs) = x == r || has r xs

unfoldable pub push_free : ℕ → List ℕ → List ℕ
push_free r free = if has r free then free else r ∷ free

-- the register of an interval that ended goes back to the pool of its class
unfoldable pub release : LiveInterval → Option ℕ → Scan → Scan
release i none s = s
release i (some r) s =
    if is_float i.type
    then record s { free_fprs = push_free r s.free_fprs }
    else record s { free_gprs = push_free r s.free_gprs }

-- The loop of `expireOldIntervals` over the active intervals, for a current interval that starts
-- at `start`: the intervals that stay active are put back in their order.
unfoldable pub expire_from : ℕ → List ℕ → Scan → Scan
expire_from start [] s = record s { active = [] }
expire_from start (a ∷ as_) s =
    let i = s.store a in
    let gone = expire_from start as_ (release i i.assigned s) in
    let rest = expire_from start as_ s in
    if ltb i.end_point start then gone else record rest { active = a ∷ rest.active }

unfoldable pub expire_old : ℕ → Scan → Scan
unfolding expire_from
expire_old start s = expire_from start s.active s

-- `isSpilled = true`, the next slot, and its offset
unfoldable pub spill : ℕ → Scan → Scan
spill k s = record s {
  spill_offset = s.spill_offset + 8;
  store =
      update s.store k
        (record (s.store k) { is_spilled = true; stack_offset = s.spill_offset + 8 });
}

-- `back` and `pop_back`
abbrev pub split_last : List ℕ → Option (List ℕ × ℕ)
split_last [] = none
split_last (x ∷ xs) = elim (split_last xs) [ none ↦ some ([], x) | some (ys, y) ↦ some (x ∷ ys, y) ]

abbrev pub set_assigned : ℕ → Option ℕ → Scan → Scan
set_assigned k r s = record s { store = update s.store k (record (s.store k) { assigned = r }) }

-- The current interval takes the candidate's register, and the candidate is spilled.
unfoldable pub steal : ℕ → ℕ → Scan → Scan
unfolding spill
steal k c s = spill c (set_assigned c none (set_assigned k (s.store c).assigned s))

-- `freePool.pop_back()`, where `freePool` is one of the two pools
unfoldable pub pop_pool : Bool → List ℕ → Scan → Scan
pop_pool true free s = record s { free_fprs = free }
pop_pool false free s = record s { free_gprs = free }

module _ (sort : (ℕ → ℕ) → List ℕ → List ℕ) where
  -- the comparison is of end points
  abbrev pub sort_active : Scan → Scan
  sort_active s = record s { active = sort (λ a. (s.store a).end_point) s.active }

  -- `spillAtInterval` for a last active interval, if there is one
  unfoldable pub spill_against : ℕ → Option (List ℕ × ℕ) → Scan → Scan
  unfolding spill steal
  spill_against k none s = spill k s
  spill_against k (some (rest, c)) s =
      if ltb (s.store k).end_point (s.store c).end_point
      then sort_active (record (steal k c s) { active = rest ++ (k ∷ []) })
      else spill k s

  unfoldable pub spill_at : ℕ → Scan → Scan
  unfolding spill_against
  spill_at k s = spill_against k (split_last s.active) s

  -- the loop body of `allocate` after the expiry, by the pool of the interval's class
  unfoldable pub take_from : ℕ → Bool → List ℕ → Scan → Scan
  unfolding spill_at
  take_from k float [] s = spill_at k s
  take_from k float (r ∷ free) s =
      let assigned = set_assigned k (some r) (pop_pool float free s) in
      sort_active (record assigned { active = s.active ++ (k ∷ []) })

  unfoldable pub allocate_one : ℕ → Scan → Scan
  unfolding expire_old take_from pop_pool
  allocate_one k s =
      let s' = expire_old (s.store k).start_point s in
      let float = is_float (s.store k).type in take_from k float (pool float s') s'

  -- the loop over the first `n` intervals
  unfoldable pub allocate_upto : ℕ → Scan → Scan
  unfolding allocate_one
  allocate_upto zero s = s
  allocate_upto (suc n) s = allocate_one n (allocate_upto n s)

abbrev pub gprs : ArchType → List ℕ
gprs ArchType.x86_64 = 15 ∷ 14 ∷ 13 ∷ 12 ∷ 3 ∷ 11 ∷ 10 ∷ []
gprs _ = 28 ∷ 27 ∷ 26 ∷ 25 ∷ 24 ∷ 23 ∷ 22 ∷ 21 ∷ 20 ∷ 19 ∷ 15 ∷ 14 ∷ 13 ∷ 12 ∷ 11 ∷ 10 ∷ 9 ∷ []

abbrev pub fprs : ArchType → List ℕ
fprs ArchType.x86_64 = 15 ∷ 14 ∷ 13 ∷ 12 ∷ 11 ∷ 10 ∷ 9 ∷ 8 ∷ 7 ∷ 6 ∷ 5 ∷ 4 ∷ 3 ∷ 2 ∷ []
fprs _ = 15 ∷ 14 ∷ 13 ∷ 12 ∷ 11 ∷ 10 ∷ 9 ∷ 8 ∷ 7 ∷ 6 ∷ 5 ∷ 4 ∷ 3 ∷ 2 ∷ 1 ∷ 0 ∷ []

pub record AllocationResult : Type 0 where
  pub var_to_reg : List (String × ℕ)
  pub var_to_stack : List (String × ℕ)
  pub total_stack_spill_bytes : ℕ

-- The two maps of the result; a later entry of a name stands in front.
abbrev pub collect_regs : ℕ → Store → List (String × ℕ)
collect_regs zero st = []
collect_regs (suc n) st =
    let rest = collect_regs n st in
    if (st n).is_spilled
    then rest
    else elim (st n).assigned [ none ↦ rest | some r ↦ ((st n).var_name, r) ∷ rest ]

abbrev pub collect_stack : ℕ → Store → List (String × ℕ)
collect_stack zero st = []
collect_stack (suc n) st =
    let rest = collect_stack n st in
    if (st n).is_spilled then ((st n).var_name, (st n).stack_offset) ∷ rest else rest

module _ (sort : (ℕ → ℕ) → List ℕ → List ℕ) where
  -- the allocator's state when the loop over the `n` intervals ends
  unfoldable pub scanned : ArchType → ℕ → Store → Scan
  unfolding allocate_upto
  scanned arch n st = allocate_upto sort n (record {
    free_gprs = gprs arch;
    free_fprs = fprs arch;
    active = [];
    spill_offset = 0;
    store = st;
  })

  unfoldable pub allocate : ArchType → ℕ → Store → AllocationResult
  unfolding scanned
  allocate arch n st =
      let s = scanned arch n st in
      record {
        var_to_reg = collect_regs n s.store;
        var_to_stack = collect_stack n s.store;
        total_stack_spill_bytes = s.spill_offset;
      }
