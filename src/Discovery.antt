-- ===== src/Discovery.antt =====
-- pkg/discovery: which node owns a wallet.
pub mod Table
pub mod Hash
pub mod Routing
pub mod Etcd
mod Tests
