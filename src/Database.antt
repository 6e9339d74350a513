-- ===== src/Database.antt =====
-- The database of the wallet: src/database/.
pub mod Rows
pub mod Joins
pub mod Balance
pub mod Linked
pub mod Deletes
pub mod Updates
