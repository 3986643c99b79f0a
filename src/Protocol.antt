-- ===== src/Protocol.antt =====
-- core/internal/protocol/proxy.go: the framing of TCP requests, TCP responses and UDP datagrams.
-- Third-party code that it calls: quic-go's `quicvarint`, taken as the parameter `QuicVarint`.
pub mod Varint
pub mod Tcp
pub mod Udp
pub mod Padding
pub mod Runs
use hysteria.Common.{ℕ}
use hysteria.Common.Bytes.Readers.{IoError}

pub data Message : Type 0 where
  invalid_address_length invalid_message_length invalid_padding_length : Message

-- An error of the reader, or `errors.ProtocolError`.
pub data Error : Type 0 where
  io : IoError → Error
  protocol_error : Message → Error

abbrev pub frame_type_tcp_request : ℕ
frame_type_tcp_request = 0x401

abbrev pub max_address_length : ℕ
max_address_length = 2048

abbrev pub max_message_length : ℕ
max_message_length = 2048

abbrev pub max_padding_length : ℕ
max_padding_length = 4096
