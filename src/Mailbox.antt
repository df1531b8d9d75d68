-- ===== src/Mailbox.antt =====
-- pkg/actor: the mailbox of one actor, its status, and the loop that empties it.
pub mod State
pub mod Threads
pub mod Order
pub mod Keeps
pub mod Swap
pub mod Loop
pub mod Fifo
pub mod Wake
pub mod Dies
pub mod Drain
mod Tests
