-- ===== src/Refresh.antt =====
-- The refresh of pending transfers: `refresh`, `fail_transfers` and what they call in
-- src/wallet/online.rs.
pub mod Hub
pub mod Broadcast
pub mod Sending
pub mod Assignments
pub mod Rejects
pub mod Receiving
pub mod Media
pub mod Checks
pub mod Validation
pub mod Download
pub mod Run
pub mod Quiet
pub mod Untouched
pub mod Moves
pub mod Visits
pub mod Steps
pub mod Progress
pub mod Failing
pub mod Ending
pub mod Finished
pub mod Unfailed
