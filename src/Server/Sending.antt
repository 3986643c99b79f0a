-- ===== src/Server/Sending.antt =====
-- `sendMessageAutoFrag` of core/server/udp.go, and `SendMessage` of `udpIOImpl` in core/server/server.go. QUIC's
-- `SendDatagram` and the embedder's logger are functions on states `D` and `L` of their own; `none` is no
-- error, and on the outside a panic. `draw` is the result of `rand.Intn(0xFFFF)`.
pub mod Delivery
pub mod Runs
use hysteria.Common.{
  ℕ, ◌+◌, ◌%◌, ◌^◌, List, [], ◌∷◌, Option, none, some, Bool, true, false, if◌then◌else◌, length,
  take, Result, ok, err, panic,
}
use hysteria.Common.Results.Panics.{◌>>=◌}
use hysteria.Protocol.Varint.{QuicVarint}
use hysteria.Protocol.Udp.{UdpMessage, serialize}
use hysteria.Frag.{OutOfFuel, frag_udp_message}
use hysteria.Server.Copy.{TrafficVerdict, accept, reject, disconnects}

-- `quic.DatagramTooLargeError` with its `MaxDatagramPayloadSize`, `errDisconnect`, or another error.
pub data SendError : Type 0 where
  too_large : ℕ → SendError
  disconnect : SendError
  other_error : ℕ → SendError

-- The loggers that `SendMessage` tells apart by their types; each gets the user and the bytes down and up.
pub data Logger (L : Type 0) : Type 0 where
  no_logger : Logger L
  verdict_logger : (L → ℕ → ℕ → ℕ → TrafficVerdict × L) → Logger L
  bool_logger : (L → ℕ → ℕ → ℕ → Bool × L) → Logger L

-- `udpIOImpl`
pub record UdpIo (D L : Type 0) : Type 0 where
  pub auth_id : ℕ
  pub send_datagram : D → List ℕ → Option SendError × D
  pub close_with_error : D → D
  pub traffic_logger : Logger L

-- The buffer, and the states of the connection and of the logger.
pub record SendState (D L : Type 0) : Type 0 where
  pub buf : List ℕ
  pub conn : D
  pub logged : L

module _ {D L : Type 0} (io : UdpIo D L) where
  abbrev closed_with : Bool → SendState D L → Option SendError × SendState D L
  closed_with true s = (some disconnect, record s { conn = io.close_with_error s.conn })
  closed_with false s = (none, s)

  abbrev pub on_verdict : TrafficVerdict × L → SendState D L → Option SendError × SendState D L
  on_verdict (accept, l) s = closed_with false (record s { logged = l })
  on_verdict (reject, l) s = closed_with false (record s { logged = l })
  on_verdict (disconnects, l) s = closed_with true (record s { logged = l })

  abbrev pub on_answer : Bool × L → SendState D L → Option SendError × SendState D L
  on_answer (true, l) s = closed_with false (record s { logged = l })
  on_answer (false, l) s = closed_with true (record s { logged = l })

  -- The accounting of `n` bytes that are sent.
  abbrev pub account : Logger L → ℕ → SendState D L → Option SendError × SendState D L
  account no_logger n s = (none, s)
  account (verdict_logger log) n s = on_verdict (log s.logged io.auth_id 0 n) s
  account (bool_logger log) n s = on_answer (log s.logged io.auth_id 0 n) s

  abbrev pub after_datagram :
      ℕ → SendState D L → Option SendError × D → Option SendError × SendState D L
  after_datagram n s (some x, conn) = (some x, record s { conn = conn })
  after_datagram n s (none, conn) = account io.traffic_logger n (record s { conn = conn })

  -- What follows `Serialize`: a message that does not fit into the buffer is dropped.
  abbrev pub after_serialize :
      UdpMessage → SendState D L → List ℕ × Option ℕ → Option SendError × SendState D L
  after_serialize msg s (buf, none) = (none, record s { buf = buf })
  after_serialize msg s (buf, some n) =
      after_datagram (length msg.payload) (record s { buf = buf })
        (io.send_datagram s.conn (take n buf))

module _ {D L : Type 0} (qv : QuicVarint) (io : UdpIo D L) where
  unfoldable pub send_message :
      SendState D L → UdpMessage → Option (Option SendError × SendState D L)
  send_message s msg = do
    serialized ← serialize qv msg s.buf
    some (after_serialize io msg s serialized)

-- `sendMessageAutoFrag` over any `SendMessage`, whose buffer is in the state `S`.
module _ {S : Type 0} (send_func : S → UdpMessage → Option (Option SendError × S)) where
  -- The loop over the fragments.
  unfoldable pub send_all : S → List UdpMessage → Option (Option SendError × S)
  send_all s [] = some (none, s)
  send_all s (m ∷ ms) = send_func s m >>= λ sent. elim sent.0 [
    | none ↦ send_all sent.1 ms
    | some x ↦ some (some x, sent.1)
  ]

  -- What follows `FragUDPMessage`.
  unfoldable pub send_fragments :
      S → Result OutOfFuel (List UdpMessage) → Option (Option SendError × S)
  send_fragments s (ok ms) = send_all s ms
  send_fragments s (err e) = none
  send_fragments s panic = none

  unfoldable pub after_send :
      QuicVarint → ℕ → UdpMessage → Option SendError × S → Option (Option SendError × S)
  after_send qv draw msg (some (too_large max_size), s) =
      send_fragments s
        (frag_udp_message qv (record msg { packet_id = (draw % 2 ^ 16 + 1) % 2 ^ 16 }) max_size)
  after_send qv draw msg (some disconnect, s) = some (some disconnect, s)
  after_send qv draw msg (some (other_error x), s) = some (some (other_error x), s)
  after_send qv draw msg (none, s) = some (none, s)

  unfoldable pub send_message_auto_frag :
      QuicVarint → ℕ → S → UdpMessage → Option (Option SendError × S)
  send_message_auto_frag qv draw s msg = do sent ← send_func s msg; after_send qv draw msg sent
