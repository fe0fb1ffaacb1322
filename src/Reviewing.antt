-- ===== src/Reviewing.antt =====
-- internal/controlplane: who is asked to review a run, and whose review is heard.
pub mod Assigner
pub mod Subject
pub mod Chosen
pub mod Heard
pub mod Judgements
pub mod Promotion
pub mod Record
pub mod Submit
pub mod Keys
pub mod Recorded
mod Examples
mod RouteExamples
