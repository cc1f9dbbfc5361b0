-- ===== src/Connection/Tests.antt =====
-- Tests of src/connection_state.rs.
mod Backoff
mod Events
