-- ===== src/Checks.antt =====
-- pkg/checks: check results, the evaluation of a list of checks, and the operators on streams.
pub mod Result
pub mod Glob
pub mod Latency
pub mod Operators
mod Examples
