-- ===== src/Player.antt =====
-- src/player.rs: the audio player, without the threads, the decoder and the output device.
pub mod Stream
pub mod Bytes
pub mod Media
pub mod Download
pub mod Pcm
pub mod Retry
pub mod Session
mod Tests
