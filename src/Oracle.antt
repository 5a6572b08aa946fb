-- ===== src/Oracle.antt =====
-- internal/oracle: the probe's canary rows (probe.go), the synthesis of policies and the four
-- self-checks (oracle.go).
pub mod Literal
pub mod Distinct
pub mod Plan
pub mod Inserts
pub mod Seed
pub mod Checks
pub mod Synthesis
pub mod Controls
pub mod Coverage
pub mod Privilege
pub mod Grants
pub mod Ledger
pub mod SmallDatabase
mod Tests
pub mod Rows
pub mod Unique
