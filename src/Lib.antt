-- ===== src/Lib.antt =====
-- A model of hysteria, a proxy over QUIC, with theorems about it.
--
-- The client opens a stream per TCP connection and sends a request with the target's address; the
-- server answers with a status. UDP goes in QUIC datagrams, each with a session id; a message that
-- does not fit into one is cut into fragments. The server keeps a table of UDP sessions for each
-- connection, dials a socket for a session on its first complete message, and closes idle ones.
--
-- Which file models what:
--   Common.antt and below: numbers, lists, byte buffers, big-endian numbers, readers, results.
--   Protocol.antt: the constants and errors of core/internal/protocol/proxy.go.
--   Protocol/Varint.antt: `varintPut` there, and quic-go's quicvarint as the parameter `QuicVarint`,
--     which `IsRfc9000` describes; Varint/Rfc9000.antt instantiates it. Varint/Encode.antt: what
--     `varintPut` writes, `Read` and `Parse` read.
--   Protocol/Tcp.antt: `ReadTCPRequest` and `ReadTCPResponse` (Tcp/Read.antt), `WriteTCPRequest` and
--     `WriteTCPResponse` (Tcp/Write.antt); the proofs in Tcp/RoundTrip.antt and Tcp/Inversion.antt.
--   Protocol/Udp.antt: `UDPMessage` with `HeaderSize`, `Size`, `Serialize`; `ParseUDPMessage` is
--     in Udp/Parse.antt; the proofs are in Udp/RoundTrip.antt and Udp/Inversion.antt.
--   Protocol/Padding.antt: core/internal/protocol/padding.go.
--   Frag.antt: `FragUDPMessage` and `Defragger.Feed` of core/internal/frag/frag.go. Frag/Split.antt is
--     about the cutting; Frag/Slots.antt, Frag/Reassemble.antt and Frag/Order.antt about the joining;
--     Frag/Safety.antt about messages that no sender of ours has made.
--   Server/Session.antt: `udpSessionEntry` of core/server/udp.go; Session/Cache.antt is about
--     `checkAddr`, Session/Feeding.antt about `Feed`.
--   Server/Sessions.antt: `udpSessionManager` there. What a goroutine does under one hold of a lock
--     is one function; `Step` of Sessions/Steps.antt lets them follow one another in any order.
--     Sessions/Invariant.antt states what holds throughout, Opening, Closing and Keeping prove that
--     each operation keeps it; Admission and Cleanup say what `feed` and `cleanup` do.
--   Server/Sending.antt: `sendMessageAutoFrag` there, and `SendMessage` of core/server/server.go;
--     Sending/Delivery.antt is about a connection with a limited datagram size.
--   Server/Copy.antt: `copyBufferCheck` of core/server/copy.go; Copy/Whole.antt is about a copy without errors,
--     Copy/Checked.antt about its check. Copy/TwoWay.antt: the checks of `copyTwoWayEx` and `copyTwoWayVerdict` there,
--     and Copy/Kicked.antt what they do with the traffic logger of Stats.antt.
--   Server/PreAuth.antt: core/server/preauth_yue.go. PreAuth/Cap.antt is about the charges,
--     PreAuth/Callbacks.antt about the callbacks around the embedder's, in any sequence of calls.
--   PortUnion.antt: extras/utils/portunion.go, with `sort.Slice` as a parameter; PortUnion/Merge.antt is
--     about `Normalize`, PortUnion/Ports.antt about `Ports`; PortUnion/Parse.antt models `ParsePortUnion`, and
--     Split, Written and Accepted are about the texts that it accepts.
--   Client.antt: `udpConn` and `udpSessionManager` of core/client/udp.go. Client/Invariant.antt states what
--     holds throughout, Cells, Opening and Closing say what the operations keep, Client/Steps.antt lets them
--     follow one another in any order; Client/Receiving.antt is about `Receive`.
--     Client/Reconnect.antt: core/client/reconnect.go, with Reconnect/Once.antt about what goroutines do with it.
--   Obfs/GeckoFrame.antt: extras/obfs/gecko_frame.go, with GeckoFrame/RoundTrip.antt. Obfs/Gecko.antt: the
--     receive path of extras/obfs/gecko.go; Gecko/Table.antt, Gecko/Bounded.antt and Gecko/History.antt are about
--     its table under any sequence of chunks, Gecko/Cutting.antt models the send path, and
--     Gecko/Collect.antt is about expired entries,
--     Gecko/Reassemble.antt about the chunks of one packet. Obfs/Salamander.antt: extras/obfs/salamander.go,
--     with Salamander/RoundTrip.antt.
--   Congestion/Ring.antt: core/internal/congestion/bbr/ringbuffer.go; Ring/Window.antt says which elements
--     a ring holds, Ring/Refine.antt what an append and a pop make of them, Ring/History.antt runs whole
--     sequences of calls, Ring/Store.antt is about stores through a pointer. Congestion/Window.antt:
--     windowed_filter.go there, and Window/Order.antt the order of its estimates. Congestion/PacketQueue.antt:
--     packet_number_indexed_queue.go there, which keeps its slots in such a ring. PacketQueue/Ledger.antt is what
--     it promises its callers, PacketQueue/Slots.antt how slots stand for kept entries, Clear, First, Entry and
--     Emplace say what its operations make of them, and PacketQueue/Refine.antt runs sequences of calls.
--   Stats.antt: extras/trafficlogger/http.go; Stats/Conserved.antt is about what becomes of the traffic,
--     Stats/Kicked.antt about kicks.
--   Acl.antt and below: the access control list of the outbounds. Acl/Ip.antt and Acl/Texts.antt are what it uses
--     of Go's library. Acl/Parse.antt: extras/outbounds/acl/parse.go, with Parse/RoundTrip.antt. Acl/Compile.antt: the
--     compiler of compile.go there; Compile/Ports.antt is about protocols and ports, Compile/Meaning.antt says what a
--     rule means, with Compile/Rule.antt and Compile/NoPanic.antt about the code, and Compile/First.antt runs the
--     loop. Acl/Rules.antt: the compiled rules there and their cache; Rules/Key.antt is about hosts with one key,
--     Rules/Cached.antt about the cache. Acl/Matchers.antt: matchers.go there, with Matchers/Wildcard.antt.
--     Acl/GeoIp.antt and Acl/GeoSite.antt: matchers_v2geo.go there; GeoIp/Search.antt is about the binary search,
--     GeoSite/Indexed.antt about the index. Acl/Engine.antt: extras/outbounds/acl.go, with Engine/Names.antt.
--   Acl/Runs.antt, Acl/Rules/Runs.antt, Acl/Compile/Runs.antt, Stats/Runs.antt, Client/Runs.antt,
--     Obfs/Runs.antt, Congestion/Runs.antt, Protocol/Runs.antt, Frag/Runs.antt, Server/Runs.antt,
--     Server/Sending/Runs.antt, Server/Copy/Runs.antt, Server/PreAuth/Runs.antt and PortUnion/Runs.antt:
--     the theorems at concrete inputs.
--
-- Numbers are natural numbers; where the source's type is narrower and can wrap, the wrap is written
-- out (the uint8 counters of frag.go). Sums of sizes are far below 2^63, so that none wraps. Go's panics
-- are the outcome `panic` of `Result`, or `none` where the code has no error. The loop of
-- `FragUDPMessage` runs on fuel, one unit for each byte of the payload and one more, which is enough
-- since each round takes a byte; the loops that pop slots of the packet queue run on fuel for every slot,
-- and a copy of a stream for any number of rounds. The order in which Go ranges over a map, the random
-- padding, the clock and what the embedder's functions answer are arguments.
--
-- Not modelled: QUIC, sockets, goroutine scheduling inside a locked part, logging of errors, the
-- senders of the congestion control and the sampler that they use, the sockets around the obfuscation, port
-- hopping, sniffing, NAT traversal, the handshakes, the authenticators, the speed test, the outbounds that the
-- list picks, the copy of net/url and the applications.
pub mod Common
pub mod Protocol
pub mod Frag
pub mod Server
pub mod PortUnion
pub mod Congestion
pub mod Client
pub mod Obfs
pub mod Stats
pub mod Acl
