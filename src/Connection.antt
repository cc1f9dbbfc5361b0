-- ===== src/Connection.antt =====
-- src/connection_state.rs: the connections to the peers of a room, and the promotion of a relayed
-- connection to a direct one.
pub mod Net
pub mod Backoff
pub mod State
pub mod Views
pub mod Promotion
pub mod Events
mod Tests
