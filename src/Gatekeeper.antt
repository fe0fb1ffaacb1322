-- ===== src/Gatekeeper.antt =====
-- internal/gatekeeper: whether an agent may merge, and on whose authority.
pub mod Request
pub mod Decision
pub mod Paths
pub mod Tiers
pub mod Authorize
pub mod Conditions
pub mod Checks
pub mod Sound
pub mod Authority
pub mod Floor
pub mod Change
pub mod Owed
pub mod Runs
pub mod Required
pub mod Standing
pub mod Ordering
mod Examples
mod OwedExamples
