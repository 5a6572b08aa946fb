-- ===== src/Differ.antt =====
-- internal/differ: re-executing a captured query with and without row-level security, and the verdict.
pub mod Rows
pub mod Statement
pub mod Contained
pub mod Regex
pub mod Patterns
pub mod Extract
pub mod Population
pub mod Rerun
pub mod Write
pub mod Verdict
pub mod Single
pub mod Samples
mod Tests
