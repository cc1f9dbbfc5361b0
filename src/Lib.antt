-- ===== src/Lib.antt =====
-- A model of light-ear, a peer-to-peer room in which people chat and listen to one music queue.
--
-- The network task of a peer (src/backend.rs) owns five pure state machines and calls them for each
-- message, connection event, command and timer; they answer what to publish, dial or show. It also
-- keeps the chat history and the files of the media cache. This library models:
--   Core        src/core.rs: the records and messages (Types, Wire), PendingPlayback (Pending),
--               ActiveVote (Vote), and normalize_timestamp_micros and format_duration_ms (Clock).
--   Music       src/music_state.rs: MusicState and its phases (State), the queue (Queue), votes
--               (Voting), the life of a track (Phase), controls by votes and by the local peer
--               (Controls), positions (Position) and the order of playback states (Order). Remote
--               collects what other peers' messages do.
--   Buffer      src/buffer_state.rs: BufferCoordinator, and BufferOperation in Buffer/Operation.
--   Health      src/playback_health.rs: PlaybackHealth.
--   Connection  src/connection_state.rs: addresses (Net), DirectPromotionBackoff (Backoff), the
--               state (State), the shared steps (Promotion), the events (Events) and what is
--               shown of the peers (Views).
--   MediaCache  src/media_cache.rs: ByteRange, the index of the ranges on disk (Index), the ranges
--               of a track (Window), what servers say of ranges (Headers), the requests (Fetch) and
--               the removal of old files (Evict).
--   Backend     src/backend.rs: the chat history in causal order (History), validate_wire_source
--               (Source), the exchange of histories (Sync), LocalMediaResolver (LocalMedia), the
--               arms of execute_vote_action for the queue (Votes), ZeroPeerRecovery (Recovery), and
--               the items, tracks and stream events of a playback (Playback).
--   Player      src/player.rs: which bytes of a stream are asked for (Stream), SharedBytes (Bytes), the
--               iterations of download_streaming_bytes (Download), the requests that are sent again
--               (Retry), StreamingMediaSource (Media), SharedPcm and the sources of samples (Pcm), and
--               StreamingSession and AudioPlayer (Session).
--   Prelude     lists, sets, maps, integers and text as the other parts use them.
-- A vote that passes leads the backend to a call of Controls or Queue. A track that is prepared starts
-- when its peers are ready (Phase); a start, seek or resume may wait for a majority of the peers to
-- buffer (Buffer); while the track plays, Health watches whether a majority keeps up. The machines
-- share only the records of Core and majority_threshold.
--
-- In the player three threads share two structures, each behind a lock: the download thread appends
-- chunks to a SharedBytes, from which the decoder reads; the decoder pushes samples to a SharedPcm, from
-- which the output device pulls them. A method that holds the lock is one step on the state, in any order
-- with the other threads' steps (Bytes/Steps, Pcm/Steps). An attempt of the output device at a sample
-- takes the lock more than once, and has what it finds each time as an argument (Pcm/Source). A loop that waits for the other threads is one
-- attempt here, which answers that it waits. Whether a sleep of the download thread ends before the stream
-- is canceled is an argument, and so is what a request brings. Bytes are numbers, a sample is of any type,
-- and the product of a sample and the volume is the parameter scaled.
--
-- A method on &mut self is a function from the state to the new state, paired with the answer; it has
-- the name of the method in the source. An impl block is a module, and where two have a method of one
-- name the shorter part of the two names goes in front (operation_quorum, routes_empty). Cases of a
-- match that take a guard of several lines are helpers next to their caller.
--
-- Numbers: u64, u32 and usize are natural numbers, with the saturation of the source written out; a
-- usize has 64 bits. An i64 is an integer that saturates or wraps where the source does. A Duration or
-- Instant counts nanoseconds. An f32 is its bits, and the one product that the source computes with
-- it, of the elapsed microseconds and the rate, is a parameter of the positions. Peer ids are texts.
-- A HashSet is a list in which no element is put twice, and a HashMap a list of pairs; the order in
-- which the source's loops visit them is any. libp2p's ConnectionId and Multiaddr with their
-- operations are the parameter Net, its parser of peer ids is the parameter parse, the HTTP client's
-- error is the parameter Error, its text for a status the parameter show_status, what the Bilibili service finds is the parameter resolve, and whether a
-- file can be removed is the parameter removes. What a server answers is an argument. Loops run over
-- lists; the loop of sort_history_causally has fuel, one round for each record, which is enough since
-- each round takes a record at least, and a request with its retries has fuel for its three attempts,
-- after which no error is retried.
--
-- Not modelled: the backend's event loop and what it sends, its announcements and peer names, the
-- files of the media cache, the player's threads with their sleeps, its decoder (symphonia), its output
-- device (rodio, cpal) and the device's watcher, the Bilibili client, the relay node and the desktop
-- shell, most of which is I/O.
pub mod Prelude
pub mod Core
pub mod Music
pub mod Buffer
pub mod Health
pub mod Connection
pub mod MediaCache
pub mod Backend
pub mod Player
