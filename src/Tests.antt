-- ===== src/Tests.antt =====
-- The theorems of the other modules at concrete processes.
pub mod Fixture
mod Runtime
mod Lists
pub mod Startup
mod Process
mod Apps
mod Ending
mod Lifetime
mod Programs
mod Handshake
