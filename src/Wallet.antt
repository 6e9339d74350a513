-- ===== src/Wallet.antt =====
-- The operations of the wallet: src/wallet/.
pub mod Selection
pub mod Issue
pub mod Slots
pub mod Delete
pub mod Unspents
