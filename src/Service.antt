-- ===== src/Service.antt =====
-- internal/service: the operations behind the API.
pub mod Keeping
pub mod Ends
pub mod Runs
pub mod Status
pub mod Provision
pub mod Start
pub mod Create
pub mod Mappings
pub mod Usage
pub mod Traffic
pub mod Hourly
pub mod Resources
