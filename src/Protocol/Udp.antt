-- ===== src/Protocol/Udp.antt =====
-- `UDPMessage` of core/internal/protocol/proxy.go with `HeaderSize`, `Size`, `Serialize` and
-- `ParseUDPMessage`. The field `Data` of the source is `payload` here. Sizes are far below 2^63, so
-- that no sum wraps.
pub mod Parse
pub mod RoundTrip
pub mod Inversion
use hysteria.Common.{
  ℕ, ◌+◌, ◌-◌, ◌^◌, ◌<◌, List, [], ◌∷◌, Option, none, some, ltb, leb, ◌==◌, ◌||◌, ◌&&◌,
  if◌then◌else◌, length, take, drop, get_elem?, Result, ok, err, or_panic, map_err,
}
use hysteria.Common.Results.Panics.{◌>>=◌}
use hysteria.Common.Bytes.{write, poke, copy, AreBytes}
use hysteria.Common.Bytes.BigEndian.{be16, be32, uint16, uint32}
use hysteria.Common.Bytes.Readers.{IoError, eof, unexpected_eof}
use hysteria.Protocol.{
  Error, io, protocol_error, invalid_address_length, invalid_message_length, max_message_length,
}
use hysteria.Protocol.Varint.{QuicVarint, varint_put}

pub record UdpMessage : Type 0 where
  pub session_id : ℕ
  pub packet_id : ℕ
  pub frag_id : ℕ
  pub frag_count : ℕ
  pub addr : List ℕ
  pub payload : List ℕ

-- The ranges of the fields' types: uint32, uint16, uint8, uint8.
pub record InRange (m : UdpMessage) : Type 0 where
  pub session_id_range : m.session_id < 2 ^ 32
  pub packet_id_range : m.packet_id < 2 ^ 16
  pub frag_id_range : m.frag_id < 2 ^ 8
  pub frag_count_range : m.frag_count < 2 ^ 8

module _ (qv : QuicVarint) where
  unfoldable pub header_size : UdpMessage → ℕ
  header_size m = 4 + 2 + 1 + 1 + qv.len (length m.addr) + length m.addr

  unfoldable pub size : UdpMessage → ℕ
  unfolding header_size
  size m = header_size m + length m.payload

  -- The new buffer and the result, where `none` is -1; `none` on the outside is a panic.
  unfoldable pub serialize : UdpMessage → List ℕ → Option (List ℕ × Option ℕ)
  unfolding size
  serialize m buf = if ltb (length buf) (size m) then some (buf, none) else do
    buf ← write buf 0 (be32 m.session_id)
    buf ← write buf 4 (be16 m.packet_id)
    buf ← poke buf 6 m.frag_id
    buf ← poke buf 7 m.frag_count
    (buf, i) ← varint_put buf 8 (length m.addr)
    (buf, k) ← copy buf (8 + i) m.addr
    let i = i + k
    (buf, k) ← copy buf (8 + i) m.payload
    let i = i + k
    some (buf, some (8 + i))
