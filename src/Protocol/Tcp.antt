-- ===== src/Protocol/Tcp.antt =====
-- `ReadTCPRequest`, `WriteTCPRequest`, `ReadTCPResponse` and `WriteTCPResponse` of
-- core/internal/protocol/proxy.go: the readers, the writers, and what they have to do with one
-- another.
pub mod Read
pub mod Write
pub mod RoundTrip
pub mod Inversion
