-- ===== src/Tests.antt =====
-- Runs of the definitions on concrete inputs, and the theorems at concrete inputs.
mod Master
pub mod Frames
mod Codec
mod Runs
pub mod Lanes
mod Transfers
pub mod Challenges
pub mod Records
mod Statuses
mod Startup
mod Client
mod Files
mod Handshakes
mod Settings
mod Requests
