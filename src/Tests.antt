-- ===== src/Tests.antt =====
-- Concrete runs of the program's parts, and the theorems at them.
pub mod Bench
mod Publications
mod Requests
mod Sessions
mod Messages
mod Polling
mod Writes
mod Credentials
pub mod Datapoints
pub mod Managing
mod Restoring
