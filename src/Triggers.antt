-- ===== src/Triggers.antt =====
-- internal/triggers: when scheduled work starts.
pub mod Field
pub mod Cron
pub mod Schedule
pub mod Marking
pub mod Fields
pub mod Termination
mod Examples
