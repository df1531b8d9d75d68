-- ===== src/Wallet.antt =====
-- internal/node/actor.go: the wallet that one actor runs: its state, its operations, and in the
-- other children what is proved of them.
pub mod State
pub mod Ops
pub mod Log
pub mod Sync
pub mod Steps
pub mod Rehydrate
pub mod Left
pub mod Durable
pub mod Ring
pub mod Cases
pub mod Window
pub mod Funds
mod Tests
