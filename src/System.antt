-- ===== src/System.antt =====
-- The program as a whole: its requests and its loops, in any order.
pub mod Changes
pub mod Constraints
pub mod Lasting
pub mod History
pub mod Statements
pub mod Kept
pub mod Rooms
pub mod Uploads
pub mod MediaItems
pub mod Jobs
pub mod Accounts
pub mod Handlers
pub mod Reachable
pub mod Invariants
pub mod Pipeline
pub mod Ownership
