-- ===== src/RegAlloc/LinearScan/Safe.antt =====
-- src/backend/regalloc/LinearScanAllocator.hpp: two intervals that overlap get two registers.

use lsm_toolchain.Prelude.{
  ℕ, ◌≤◌, ◌<◌, ◌≡◌, ◌≢◌, refl, sym, ap, ◌∙◌, inl, inr, Bool, true, false, none, some, List, [],
  Distinct, arith,
}
use lsm_toolchain.Ssa.{ArchType}
use lsm_toolchain.RegAlloc.Interval.{overlaps}
use lsm_toolchain.RegAlloc.LinearScan.{Store, Scan, pool, scanned, gprs, fprs}
use lsm_toolchain.RegAlloc.LinearScan.Pools.{IsOneClass}
use lsm_toolchain.RegAlloc.LinearScan.Good.{IsSort, Good, Good-upto}

gprs-Distinct : (arch : ArchType) → Distinct (gprs arch)
gprs-Distinct ArchType.x86_64 = ground arith
gprs-Distinct _ = ground arith

fprs-Distinct : (arch : ArchType) → Distinct (fprs arch)
fprs-Distinct ArchType.x86_64 = omega arith
fprs-Distinct _ = omega arith

-- When all intervals of the run are of one register class, given in the order of their starts and with
-- no registers yet, two of them that overlap never hold the same register when the allocator is
-- done.
pub allocate_safe :
    (sort : (ℕ → ℕ) → List ℕ → List ℕ) (arch : ArchType) (c : Bool) (n : ℕ) (st : Store)
    (i j r q : ℕ)
    → IsSort sort
    → IsOneClass c st
    → ((k : ℕ) → (st k).assigned ≡ none)
    → ((k l : ℕ) → k ≤ l → l < n → (st k).start_point ≤ (st l).start_point)
    → i < n
    → j < n
    → i ≢ j
    → overlaps (st i) (st j) ≡ true
    → ((scanned sort arch n st).store i).assigned ≡ some r
    → ((scanned sort arch n st).store j).assigned ≡ some q
    → r ≢ q
unfolding scanned
allocate_safe sort arch c n st i j r q law one bare ordered ilt jlt ne over ei ej e =
    let s0 : Scan = record {
      free_gprs = gprs arch;
      free_fprs = fprs arch;
      active = [];
      spill_offset = 0;
      store = st;
    } in
    let g0 : Good sort law c st one 0 0 s0 = record {
      types = λ k. refl;
      starts = λ k. refl;
      ends = λ k. refl;
      inv = record {
        pool = elim c as (λ b. Distinct (pool b s0)) [
          | true ↦ fprs-Distinct arch
          | false ↦ gprs-Distinct arch
        ];
        nodup = tt;
        below = λ k m. absurd m;
        untouched = λ k le. bare k;
        holds = λ k m. absurd m;
        kept = λ k p m. absurd m;
        own = λ k l p m. absurd m;
        ended = λ k p lt. absurd (omega arith);
        safe = λ k l p lt. absurd (omega arith);
      };
    } in
    let g = Good-upto sort law c st one n s0 ordered g0 in
    elim (g.inv.safe i j r ilt jlt ne ei (ej ∙ ap some (sym e))) [
      | inl before ↦ ground arith
      | inr after ↦ ground arith
    ]
