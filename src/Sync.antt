-- ===== src/Sync.antt =====
-- The reconciliation between FamilyFi's rules and the gateway's firewall policies.
pub mod Lock
pub mod Drift
pub mod Store
pub mod Gateway
pub mod Apply
pub mod LostCreates
pub mod Sweep
pub mod Run
pub mod Outcome
mod Tests
