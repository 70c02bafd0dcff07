-- ===== src/Opt.antt =====
-- src/middleend/opt: the optimisation passes.
pub mod DeadCode
