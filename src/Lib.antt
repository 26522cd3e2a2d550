-- ===== src/Lib.antt =====
-- hold-the-donut: models and proofs of a VLESS proxy in Rust (crates/).
--
-- The parts and how they interact. The carrier (donut-carrier) may bring a client's stream as numbered HTTP
-- requests, which its server puts in order. In the stream a client sends a request header (donut-wire) that
-- names a user, a command and a target; the server (donut-server) reads it from the stream, checks the user
-- against the configured ones (donut-core), asks the routing table (donut-routing, over the databases of
-- donut-geo) for an outbound, and relays the payload. The payload may be padded (Vision, in donut-wire and,
-- as Xray does it, in donut-io), and one connection may carry many datagram sessions (the Mux relay of
-- donut-server).
--
-- Which file models what:
--   Core/Address, Core/Id, Core/Kinds   crates/donut-core/src/address.rs, id.rs, kinds.rs
--   Core/Auth                           UserAuth and AuthHandle of crates/donut-core/src/id.rs
--   Wire/Error                          crates/donut-wire/src/error.rs
--   Wire/Varint, Wire/Addons            crates/donut-wire/src/addons.rs
--   Wire/Reader, Wire/Request           crates/donut-wire/src/request.rs
--   Wire/Vision                         crates/donut-wire/src/vision.rs
--   Io/VisionXray                       crates/donut-io/src/vision_xray.rs
--   Server/Mux                          crates/donut-server/src/mux.rs: frames; Egress has send_datagram, Relay
--                                       and Padded the loop of mux_relay
--   Server/Header                       the loops that read a request (crates/donut-server/src/proxy.rs) and
--                                       a response (crates/donut-server/src/outbound.rs)
--   Server/Session                      handle_session of crates/donut-server/src/proxy.rs
--   Server/Users                        crates/donut-server/src/users.rs
--   Socks                               crates/donut-socks/src/lib.rs
--   Routing                             crates/donut-routing/src/lib.rs
--   Io/Vision                           crates/donut-io/src/vision.rs
--   Server/Fragment                     crates/donut-server/src/fragment.rs: Adapter has FragmentWriter,
--                                       Paced has write_fragmented
--   Geo                                 crates/donut-geo/src/lib.rs
--   Routing/Build                       RoutingConfig of crates/donut-routing/src/lib.rs
--   Carrier/Config                      crates/donut-carrier/src/config.rs, mode.rs, placement.rs, error.rs
--   Carrier/SessionId                   crates/donut-carrier/src/session.rs
--   Carrier/Extract                     crates/donut-carrier/src/server/session_extract.rs
--   Carrier/PacketUp                    crates/donut-carrier/src/server/packet_up.rs: one session; Handle has the
--                                       Dispatcher and the table of sessions
--   Carrier/Client                      the requests of crates/donut-carrier/src/client/packet_up.rs
-- Vision/ has no code of its own: it is the padded stream format as a machine that takes one byte at a
-- time, the specification of both unpadders. Prelude/ holds the shared lemmas, Examples/ concrete runs.
--
-- How state and effects are modelled. A struct is a record and a method a function from the record to
-- the record and its result; a Rust function that returns Result and may panic is an Outcome. Bytes are
-- numbers, and what the types bound (a byte, a u16, an id of 16 bytes) is a hypothesis where a theorem
-- needs it. Fields of type i32 hold bit patterns. An async read is a list of the chunks that the reads
-- give; what a session does to sockets and metrics is a list of events. Dials, binds, lookups, the
-- routing of a target and random numbers are arguments.
--
-- Fuel. A loop over bytes has the number of bytes as fuel (one more for the loop that drains frames, two
-- more in VisionUnpadder, whose last rounds take no byte), and each round takes at least one; the release
-- of buffered chunks has as many rounds as there are chunks in the buffer; printing a u64 in decimal has
-- 20; get_varint has the ten rounds of the source. The theorems show that the loops end with their result
-- and not for lack of fuel.
--
-- Not modelled: the async runtime, sockets, timeouts and tasks, the downlink channel of the Mux relay, the
-- TLS stack (crates/donut-tls is a fork of rustls), QUIC, and the parts of the repository that are listed
-- neither here nor above. The code outside the repository (the HTTP stack, the crates hex and prost, and
-- how the standard library reads IP addresses) is a parameter of the definitions that use it. Of the packet-up
-- session the capacity of its pipe is left out: an answer that waits for room stands for one that has got it,
-- which a first POST longer than 64 KiB never does. A client's request is the one that the crate http builds; a
-- target or header that it refuses, where the code returns its error, is left out.
pub mod Prelude
pub mod Core
pub mod Wire
pub mod Vision
pub mod Io
pub mod Routing
pub mod Socks
pub mod Server
pub mod Carrier
pub mod Examples
pub mod Geo
