-- ===== src/Music.antt =====
-- src/music_state.rs: the shared queue, the playback phases and the votes of a room.
pub mod State
pub mod Position
pub mod Voting
pub mod Queue
pub mod Phase
pub mod Remote
pub mod Controls
pub mod Order
mod Tests
