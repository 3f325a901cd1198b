-- ===== src/Wallets.antt =====
-- src/modules/wallets, and the routes that move capital between the pool, wallets and bots.
pub mod Pool
pub mod Transfers
pub mod Global
mod Tests
