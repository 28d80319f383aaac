-- ===== src/Ruleeval.antt =====
-- internal/ruleeval: the rules that an engine's seam evaluates.
pub mod Predicate
pub mod Ask
pub mod Registry
pub mod Bus
pub mod Evaluator
pub mod Timing
pub mod Enforced
pub mod Loaded
