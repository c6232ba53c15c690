-- ===== src/Store.antt =====
-- internal/db/store.go over the schema of internal/setup/migrations.
pub mod Tables
pub mod Ports
pub mod Usage
pub mod Hourly
pub mod Calls
pub mod Consistent
