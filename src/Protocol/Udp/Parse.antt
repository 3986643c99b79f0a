-- ===== src/Protocol/Udp/Parse.antt =====
-- `ParseUDPMessage` of core/internal/protocol/proxy.go.
use hysteria.Common.{
  ℕ, ◌+◌, ◌-◌, List, Option, none, some, ltb, leb, ◌==◌, ◌||◌, ◌&&◌, if◌then◌else◌, length, take,
  drop, get_elem?, Result, ok, err, or_panic, map_err,
}
use hysteria.Common.Results.{◌>>=◌}
use hysteria.Common.Bytes.BigEndian.{uint16, uint32}
use hysteria.Common.Bytes.Readers.{eof, unexpected_eof}
use hysteria.Protocol.{
  Error, io, protocol_error, invalid_address_length, invalid_message_length, max_message_length,
}
use hysteria.Protocol.Varint.{QuicVarint}
use hysteria.Protocol.Udp.{UdpMessage}

-- `msg[from:to]`
unfoldable pub slice : List ℕ → ℕ → ℕ → Option (List ℕ)
slice msg from to =
    if leb from to && leb to (length msg) then some (take (to - from) (drop from msg)) else none

-- The fields of a message whose address stands at `addr_start` up to `addr_end`.
unfoldable pub fields : List ℕ → ℕ → ℕ → Result Error UdpMessage
unfolding slice
fields msg addr_start addr_end = do
  session_id ← or_panic (uint32 msg)
  packet_id ← or_panic (uint16 (drop 4 msg))
  frag_id ← or_panic (get_elem? msg 6)
  frag_count ← or_panic (get_elem? msg 7)
  addr ← or_panic (slice msg addr_start addr_end)
  payload ← or_panic (slice msg addr_end (length msg))
  ok (record {
    session_id = session_id;
    packet_id = packet_id;
    frag_id = frag_id;
    frag_count = frag_count;
    addr = addr;
    payload = payload;
  })

unfoldable pub parse_udp_message : QuicVarint → List ℕ → Result Error UdpMessage
unfolding fields
parse_udp_message qv msg =
    if ltb (length msg) 8
    then if length msg == 0 then err (io eof) else err (io unexpected_eof)
    else do
      (l_addr, varint_len) ← map_err io (qv.parse (drop 8 msg))
      let addr_start = 8 + varint_len
      let addr_end = addr_start + l_addr
      if l_addr == 0 || ltb max_message_length l_addr
          then err (protocol_error invalid_address_length)
          else if leb (length msg) addr_end
          then err (protocol_error invalid_message_length)
          else fields msg addr_start addr_end
