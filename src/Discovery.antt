-- ===== src/Discovery.antt =====
-- internal/linkdiscovery: the search for a path between two nodes behind NATs.
pub mod State
pub mod Select
pub mod Window
pub mod Search
pub mod Budget
pub mod Reported
pub mod Path
pub mod Peer
pub mod Rounds
pub mod Reciprocal
pub mod Found
pub mod Symmetric
pub mod Meeting
pub mod Runs
