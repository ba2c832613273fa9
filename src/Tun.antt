-- ===== src/Tun.antt =====
-- internal/tun: the host's routes, and the device of the overlay.
pub mod Netlink
pub mod Request
pub mod Gateway
pub mod Routes
pub mod Setup
pub mod Hosts
mod Tests
