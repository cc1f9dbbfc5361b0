-- ===== src/Backend.antt =====
-- src/backend.rs: the parts of the network task that compute.
pub mod History
pub mod Source
pub mod Votes
pub mod Recovery
pub mod LocalMedia
pub mod Sync
pub mod Playback
mod Tests
