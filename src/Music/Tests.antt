-- ===== src/Music/Tests.antt =====
-- Tests of src/music_state.rs at concrete rooms.
mod Voting
mod Queue
mod Phase
mod Playback
