-- ===== src/Core.antt =====
-- packages/core/src: the check, state and readiness types that the other packages share.
pub mod Check
pub mod Readiness
pub mod ReviewLog
pub mod Review
pub mod Release
pub mod Cutover
pub mod Examples
