-- ===== src/Script.antt =====
-- script: types, values, programs, the type checker, static costs and the evaluator.
pub mod Types
pub mod Value
pub mod Jets
pub mod Ast
pub mod Cost
pub mod Typecheck
pub mod Eval
pub mod Within
pub mod Priced
pub mod Affordable
pub mod Totals
pub mod Sufficient
