-- ===== src/Incus.antt =====
-- internal/incusclient: the client of the Incus daemon.
pub mod Daemon
pub mod Limits
pub mod Proxies
pub mod Guests
pub mod Tuning
pub mod Samples
pub mod Addresses
pub mod Network
pub mod Storage
pub mod CloudInit
pub mod Create
pub mod Packages
pub mod Laws
pub mod Server
