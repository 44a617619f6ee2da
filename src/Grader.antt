-- ===== src/Grader.antt =====
-- packages/grader/src: evidence in, verdicts out.
pub mod Types
pub mod Scope
pub mod Grade
pub mod Examples
