-- ===== src/Context.antt =====
-- src/homeops_ai/context_compiler.py: the choice of evidence sections under the budgets of a
-- context bundle, and the bundle. The query against the database and the section bodies that are
-- read from it are the argument `retrieve`; `casefold` is Python's `str.casefold`.
pub mod Defs
pub mod Budgets
pub mod Evidence
pub mod Fitting
pub mod Progress
