-- ===== src/Protocol/Runs.antt =====
-- Runs of the framing on a concrete address, padding and datagram.
use hysteria.Common.{
  ℕ, ◌<◌, ◌≤◌, ◌≡◌, ◌⊎◌, List, [], ◌∷◌, ◌++◌, Bool, true, some, none, length, replicate, take, drop,
  arith, All, ok, ◌+◌,
}
use hysteria.Common.Results.Ensures.{Ensures}
use hysteria.Protocol.{max_message_length}
use hysteria.Protocol.Varint.Rfc9000.{rfc9000, rfc9000-IsRfc9000}
use hysteria.Protocol.Padding.{string, string_shape, tcp_request_padding, IsAlphanumeric}
use hysteria.Protocol.Tcp.Read.{read_tcp_request, read_tcp_response}
use hysteria.Protocol.Tcp.Write.{write_tcp_request, write_tcp_response}
use hysteria.Protocol.Tcp.RoundTrip.{read_tcp_request-write, read_tcp_response-write}
use hysteria.Protocol.Tcp.Inversion.{IsTaken, read_tcp_request-Ensures, read_tcp_response-Ensures}
use hysteria.Protocol.Udp.{UdpMessage, InRange, size, serialize}
use hysteria.Protocol.Udp.Parse.{parse_udp_message}
use hysteria.Protocol.Udp.RoundTrip.{parse-serialize}
use hysteria.Protocol.Udp.Inversion.{parse_udp_message-Ensures}

-- `a:53`.
abbrev address : List ℕ
address = 97 ∷ 58 ∷ 53 ∷ 51 ∷ []

abbrev filler : List ℕ
filler = 65 ∷ 66 ∷ []

abbrev datagram : UdpMessage
datagram = record {
  session_id = 70000;
  packet_id = 300;
  frag_id = 0;
  frag_count = 1;
  addr = address;
  payload = 1 ∷ 2 ∷ 3 ∷ [];
}

datagram-InRange : InRange datagram
datagram-InRange = ground arith

read_tcp_request-write_example :
    (body : List ℕ) × (write_tcp_request rfc9000 filler address ≡ some (0x44 ∷ 0x01 ∷ body))
    × (read_tcp_request rfc9000 (body ++ (9 ∷ [])) ≡ ok (address, 9 ∷ []))
read_tcp_request-write_example =
    read_tcp_request-write rfc9000-IsRfc9000 filler address (9 ∷ []) (omega arith) (omega arith)
      (omega arith)

read_tcp_response-write_run :
    (sent : List ℕ) × (write_tcp_response rfc9000 filler true address ≡ some sent)
    × (read_tcp_response rfc9000 (sent ++ (9 ∷ [])) ≡ ok (true, address, 9 ∷ []))
read_tcp_response-write_run =
    read_tcp_response-write rfc9000-IsRfc9000 filler address true (9 ∷ []) (omega arith)
      (omega arith)

-- The length, the address, two bytes of padding, and three bytes more.
abbrev request : List ℕ
request = 4 ∷ 97 ∷ 58 ∷ 53 ∷ 51 ∷ 2 ∷ 65 ∷ 66 ∷ 1 ∷ 2 ∷ 3 ∷ []

read_tcp_request-Ensures_example :
    Ensures (IsTaken rfc9000 request) (read_tcp_request rfc9000 request)
read_tcp_request-Ensures_example = read_tcp_request-Ensures rfc9000-IsRfc9000 request

read_tcp_response-Ensures_run :
    Ensures
      (λ (p : Bool × List ℕ × List ℕ).
        (length p.1 ≤ max_message_length) × (1 + length p.1 + length p.2 ≤ length address))
      (read_tcp_response rfc9000 address)
read_tcp_response-Ensures_run = read_tcp_response-Ensures rfc9000-IsRfc9000 address

parse-serialize_example :
    ((20 < size rfc9000 datagram)
      × (serialize rfc9000 datagram (replicate 20 0) ≡ some (replicate 20 0, none)))
    ⊎ ((size rfc9000 datagram ≤ 20)
        × (sent rest : List ℕ) × (serialize rfc9000 datagram (replicate 20 0)
            ≡ some (sent ++ rest, some (size rfc9000 datagram)))
        × (length sent ≡ size rfc9000 datagram)
        × (length (sent ++ rest) ≡ 20)
        × (parse_udp_message rfc9000 sent ≡ ok datagram))
parse-serialize_example =
    parse-serialize rfc9000-IsRfc9000 datagram (replicate 20 0) datagram-InRange (omega arith)
      (omega arith) (omega arith)

parse_udp_message-Ensures_example :
    Ensures
      (λ (m : UdpMessage).
        (0 < length m.addr)
        × (length m.addr ≤ max_message_length)
        × (0 < length m.payload)
        × ((from : ℕ) × (8 ≤ from)
            × (m.addr ≡ take (length m.addr) (drop from address))
            × (m.payload ≡ drop (from + length m.addr) address)
            × (from + length m.addr + length m.payload ≡ length address)))
      (parse_udp_message rfc9000 address)
parse_udp_message-Ensures_example = parse_udp_message-Ensures rfc9000-IsRfc9000 address

request_padding_shape :
    (64 ≤ length (string tcp_request_padding 6 (λ k. 61)))
    × (length (string tcp_request_padding 6 (λ k. 61)) < 512)
    × All IsAlphanumeric (string tcp_request_padding 6 (λ k. 61))
request_padding_shape =
    string_shape tcp_request_padding 6 (λ k. 61) (omega arith) (λ k. omega arith)
