-- ===== src/Controlplane.antt =====
-- internal/controlplane: what the control plane records.
pub mod Lease
pub mod Claim
pub mod Handover
pub mod Rows
pub mod Exclusion
pub mod Taking
pub mod Fleet
mod Examples
