-- ===== src/Tests.antt =====
-- Tests: servers that the theorems' hypotheses hold of, and the theorems at concrete inputs.
pub mod Servers
mod Allocator
pub mod Lifecycle
mod Accounting
mod Access
mod Containers
mod Requests
