-- ===== src/Examples.antt =====
-- Runs of the modelled operations on test data.
mod Refresh
mod Rejects
mod Send
mod Coloring
mod Tables
mod Wallet
mod Database
mod Multisig
