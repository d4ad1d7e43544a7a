-- ===== src/Lib.antt =====
-- A model of the relay framework for multi-party computation, and proofs about it.
--
-- Clients talk to a relay server over websockets. A client makes a noise handshake with the server
-- and, relayed by it, with each of its peers; after that requests to the server and messages to the
-- peers are encrypted, cut into chunks, put into envelopes and encoded. The server keeps meeting
-- points, where clients exchange their public keys, and sessions, in which they connect to one
-- another and run the rounds of a protocol.
--
-- Which file models what:
-- - Types, Messages, Messages/Kinds: the constants of protocol/src/constants.rs and
--   protocol/src/encoding/mod.rs, the messages of protocol/src/protocol.rs and their kinds.
-- - Wire: writers and readers over the crate `binary_stream`, which is the record `BinaryStream`;
--   `IsFaithful` (Wire/Carries) is what its documentation promises, and Wire/LittleEndian a format
--   that keeps it. Errors are those of protocol/src/error.rs.
-- - Encoding: protocol/src/encoding/mod.rs and protocol/src/encoding/v1/mod.rs. Encoding/Valid says
--   which messages the encoding carries.
-- - Channel: `Chunk` of protocol/src/protocol.rs, protocol/src/channel.rs, and the peer channel of
--   client/src/lib.rs. The crate `snow` is the records of Channel/Noise, with the law `IsChannel`;
--   Channel/Counter is a transport that keeps it.
-- - Sessions: `SessionState` (the clients' view), `Session` and `SessionManager` (the server's) of
--   protocol/src/protocol.rs. Meetings: `Meeting` and `MeetingManager`. Expiry: the test that both
--   managers make of an entry's last access.
-- - Server: Config is server/src/config.rs, Lifecycle the connections of server/src/websocket.rs and
--   the reaping of server/src/server.rs, and Send, Service, Requests and Polling are
--   server/src/service.rs. State is what they work on: the server's state, the contents of the
--   connections, found by their identifier, and the polling tasks that were spawned. The crates
--   `flate2` and `thiserror` are the record `Runtime`.
-- - Keypair: protocol/src/keypair.rs, over the crate `pem`, which is the record `PemText`.
-- - Actions: calls that change a state and return, fail, panic or wait, for the client and the driver.
-- - Client: State is what a client and its event loop share, with what their channels hold; Options is
--   `ClientOptions` of client/src/lib.rs and `NativeClient::new` of client/src/native.rs; Calls is
--   client/src/client.rs, the calls of the transport; Incoming the handlers of
--   client/src/event_loop.rs; Turns its loop, with the reading and writing of client/src/native.rs.
--   The crates `snow` (its builder), `hex` and `flate2` are the records `Builder` and `Codecs`. What
--   joins a client with another (Peering, Handshake) or with the server (Serving) is over these.
-- - Rounds: `RoundBuffer` of driver/src/round.rs.
-- - Driver: State is the messages of a round in driver/src/round.rs and the trait `ProtocolDriver` of
--   driver/src/lib.rs; Bridge and Waiting are driver/src/bridge.rs; Session is driver/src/session.rs.
--   Driver/Gg20: Participants and Online are the drivers of driver/src/gg20/sign.rs with their own
--   state, Machines the two over a state machine of `round_based` (that of driver/src/gg20/keygen.rs
--   and the offline one), Starting makes a bridge for each, and Flows is driver/src/gg20/mod.rs.
-- - Examples: the theorems at concrete inputs.
--
-- Hash maps and sets are lists of entries in the order of insertion; identifiers, the time and the
-- order of steps are arguments. An `unwrap`, a slice or an `unreachable!()` that fails is the outcome
-- `panic` (`panicked` on the server and the client). Machine integers keep their casts (`% 2 ^ 16`).
-- `slice::chunks` (`pieces` in Channel/Chunks) runs on fuel, the length of the payload, which is
-- enough since every piece has a byte; all other loops are structural.
--
-- A client's channel holds 32 messages, as in the code; a send to a full one is the outcome `waiting`.
-- The loops that wait for an event take the items of the stream as a list, each with what the event
-- loop makes of the state that it shares with the client before that item; they end with `none` when
-- the list does.
--
-- Not modelled: the interleaving of tasks within a handler, locks, timers and the sockets, the
-- browser's among them; reading the configuration from files and TLS; the cryptography of key
-- generation and signing; bindings, command line, tools.
pub mod Prelude
pub mod Types
pub mod Messages
pub mod Wire
pub mod Keypair
pub mod Encoding
pub mod Channel
pub mod Expiry
pub mod Sessions
pub mod Meetings
pub mod Server
pub mod Actions
pub mod Client
pub mod Driver
pub mod Examples
pub mod Rounds
