-- ===== src/Client.antt =====
-- cmd/client: the gateway side.
pub mod Callbacks
pub mod Metrics
pub mod Stress
pub mod Streamer
pub mod Life
pub mod Dispatch
pub mod Gateway
mod StressTests
mod LifeTests
mod ReachTests
mod GatewayTests
