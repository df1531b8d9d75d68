-- ===== src/Node.antt =====
-- internal/node/node.go: the runtime around the wallets.
pub mod Keys
pub mod Flush
pub mod Runtime
pub mod Retry
pub mod Fate
pub mod Rounds
pub mod Races
pub mod Replies
pub mod Routes
pub mod Identity
pub mod Delivery
pub mod Aggregate
pub mod Served
mod Tests
mod ReplyTests
