-- ===== src/Core.antt =====
-- src/core.rs: the records that the peers exchange, the ready set of a pending playback, the ballots
-- of a vote, and timestamps.
pub mod Types
pub mod Samples
pub mod Wire
pub mod Pending
pub mod Vote
pub mod Clock
