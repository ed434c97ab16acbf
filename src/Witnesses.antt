-- ===== src/Witnesses.antt =====
-- The theorems about each part at concrete inputs, and runs on fixed inputs.
pub mod Gateway
pub mod Caches
pub mod Channels
pub mod Texts
pub mod Pools
pub mod Routes
pub mod Runs
pub mod Servers
pub mod Users
pub mod Programs
pub mod Commands
pub mod Loops
pub mod Measures
pub mod Websockets
pub mod Listeners
