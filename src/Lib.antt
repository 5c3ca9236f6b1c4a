-- ===== src/Lib.antt =====
-- Rustgo: a self-hosted tunnel for TCP, UDP and authenticated peers. This library models the parts of
-- it that decide what the program accepts, keeps and sends, and proves them correct.
--
-- Parts and files (paths from the repository's root):
-- - crates/rustgo-protocol, the wire protocol, is Protocol. message.rs is Protocol/Limits,
--   Protocol/Payload (the payload records), Protocol/Accepts (what the Deserialize implementations
--   demand of a value), Protocol/MessageId and Protocol/Message; version.rs is Protocol/Version;
--   frame.rs is Protocol/Frame (FrameCodec: encode, decode, decode_exact), Protocol/PayloadCodec
--   (encode_payload, decode_payload) and Protocol/Datagram (encode_udp, decode_udp); state.rs is
--   Protocol/Handshake (ClientHandshakeState: transition, transition_control).
-- - crates/rustgo-transport is Transport: backoff.rs is Transport/Backoff, the delay before a
--   reconnection; ChannelBindingStore of tls.rs is Transport/Binding, the one-time tokens of data
--   channels.
-- - crates/rustgo-rendezvous/src/state.rs is Rendezvous/State: one rendezvous session.
-- - crates/rustgo-path, the choice of a path between two peers, is Path: state.rs is Path/State;
--   the record of PathManager in lib.rs, with the operations on it, is Path/Manager; the installation
--   of a winner, the start of a recheck (health.rs) and the drop are Path/Install. Path/Install/Steps
--   turns every critical section into an operation on one state.
-- - crates/rustgo-nat is Nat: observation.rs is Nat/Observation (analyze_mappings, with
--   is_usable_address of candidate.rs), predict.rs is Nat/Predict (predicted_ports), and Nat/Integer has
--   the signed arithmetic of both.
-- - crates/rustgos, the server, is Server. The addresses of udp.rs are Server/Udp/Address. FlowTable of
--   udp.rs is Server/Udp/Flows, whose Queue is the
--   abstract queue of flows and whose Trace compares the two along lists of calls; UdpRuntimeLimits is
--   Server/Udp/Limits. SessionRuntime of registry.rs is Server/Session, ClientRegistry is
--   Server/Registry, with the runtimes that its references point to, and ControlSessionGuard is
--   Server/Guard, the tunnels of a client.
-- - Prelude has the shared names: lists measured by native numbers, results with an error, big-endian
--   numbers, and maps as association lists (Prelude/Dict).
--
-- The parts meet as they do in the program: the codec turns bytes into messages of Protocol/Message,
-- and the handshake takes these messages and a version that was negotiated. The path manager, the
-- backoff, the rendezvous state and the analysis of mappings are used beside them, by the client
-- and the server. The registry looks a session up by the name of a request, the session looks its
-- token up in the binding store, and a flow table belongs to one UDP tunnel of a session.
--
-- How state is modelled: a method that changes its receiver returns its result with the receiver that
-- it leaves. A method behind a mutex is one operation on the record, and an interleaving of tasks is a
-- list of operations; what happens between two critical sections is not modelled. A clock is read
-- once in an operation at most and is an argument of it, and a Duration is its nanoseconds.
--
-- Numbers and bounds: a byte is a natural number, and the theorems that need it below 256 say so; a
-- field of 16, 32 or 64 bits has its bound in the hypotheses on typed values (IsTyped, IsDatagram,
-- IsVersion). Arithmetic that saturates or wraps in the source is written out. There is no fuel:
-- every definition is by structural recursion, and loops that the source bounds (16 attempts at an
-- identifier or a token, the flows of one sweep) recur on that bound; the loop of start_recheck, which
-- releases the lock between its turns, is given by its turn.
--
-- Parameters: the postcard serialization (Protocol/Externals.Postcard), of which it is assumed that a
-- value that was serialized is read back whole; the writers of bytes::BufMut, assumed to write
-- big-endian numbers; the source of jitter, about which nothing is assumed; the handle of a path; the
-- system's random numbers, where a drawn token is assumed to have its 32 bytes; the numbers that stand
-- for newly allocated traffic counters; Instant::checked_add;
-- whether a socket can be bound, and what str::trim takes for blank.
--
-- Not modelled: sockets, TLS, QUIC and tasks; the race between path attempts; the gathering of
-- candidates; the atomic traffic counters behind a flow; cryptography; TOML and SQL; serde's
-- visitors; the web pages, the graphical client and the packaging. The count of active operations, a
-- usize, is not bounded.
-- No lock is poisoned: no task panics while it holds one.
pub mod Prelude
pub mod Protocol
pub mod Transport
pub mod Rendezvous
pub mod Path
pub mod Nat
pub mod Server
