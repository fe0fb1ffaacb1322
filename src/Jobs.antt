-- ===== src/Jobs.antt =====
-- internal/controlplane/store.go: jobs, their runs, and the workers that execute them.
pub mod Tables
pub mod Recover
pub mod Route
pub mod Greet
pub mod Poll
pub mod ErrorClass
pub mod Report
pub mod Complete
pub mod Operate
pub mod Create
pub mod Calls
pub mod Rows
pub mod Budget
pub mod Recovery
pub mod Life
pub mod Turns
pub mod Completing
pub mod Leaving
pub mod Following
pub mod Going
pub mod Moving
pub mod Answering
pub mod Concurrency
mod Examples
