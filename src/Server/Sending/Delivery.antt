-- ===== src/Server/Sending/Delivery.antt =====
-- What `sendMessageAutoFrag` hands to a connection that limits the size of a datagram.
use hysteria.Common.{
  ℕ, zero, suc, ◌+◌, ◌*◌, ◌%◌, ◌^◌, ◌≤◌, ◌<◌, ◌≡◌, ◌⊎◌, inl, inr, refl, sym, ◌∙◌, ap, List, [], ◌∷◌,
  ◌++◌, append_assoc, append-nil, Option, none, some, All, arith, ok, length, take, drop,
  Bool-cases, ltb, take-append_self, length-take, length-drop,
}
use hysteria.Protocol.{max_message_length}
use hysteria.Protocol.Varint.{QuicVarint, IsRfc9000}
use hysteria.Protocol.Udp.{UdpMessage, InRange, size, header_size}
use hysteria.Protocol.Udp.Parse.{parse_udp_message}
use hysteria.Protocol.Udp.RoundTrip.{parse-serialize}
use hysteria.Frag.Split.{fragments, payloads, fragment_count, split_within, count_lower}
use hysteria.Server.Sending.{
  SendError, too_large, UdpIo, SendState, account, after_datagram, send_message, send_all,
  send_fragments, after_send, send_message_auto_frag,
}

-- A connection whose state is the datagrams that it has taken: it takes those of at most `max_size` bytes,
-- and names this limit when it refuses one. The logger asks for no disconnect, and `spend` is what it
-- makes of the bytes that it is told.
pub record Limits {L : Type 0} (io : UdpIo (List (List ℕ)) L) (max_size : ℕ) (spend : L → ℕ → L)
    : Type 0 where
  pub takes :
      (conn : List (List ℕ)) (d : List ℕ)
      → length d ≤ max_size
      → io.send_datagram conn d ≡ (none, conn ++ (d ∷ []))
  pub refuses :
      (conn : List (List ℕ)) (d : List ℕ)
      → max_size < length d
      → io.send_datagram conn d ≡ (some (too_large max_size), conn)
  pub allows :
      (n : ℕ) (s : SendState (List (List ℕ)) L)
      → account io io.traffic_logger n s ≡ (none, record s { logged = spend s.logged n })

-- A message as the wire format can carry it.
pub record IsSendable (m : UdpMessage) : Type 0 where
  pub in_range : InRange m
  pub addressed : 0 < length m.addr
  pub short : length m.addr ≤ max_message_length
  pub filled : 0 < length m.payload

-- The logger is told the payload of each message.
abbrev pub spend_all : {L : Type 0} → (L → ℕ → L) → L → List UdpMessage → L
spend_all spend l [] = l
spend_all spend l (m ∷ ms) = spend_all spend (spend l (length m.payload)) ms

-- The datagrams are those of the messages, in their order, and fit into `max_size` bytes.
abbrev pub Carry : QuicVarint → ℕ → List (List ℕ) → List UdpMessage → Type 0
Carry qv max_size [] [] = Unit {0}
Carry qv max_size [] (m ∷ ms) = ⊥
Carry qv max_size (d ∷ ds) [] = ⊥
Carry qv max_size (d ∷ ds) (m ∷ ms) =
    (parse_udp_message qv d ≡ ok m) × (length d ≤ max_size) × Carry qv max_size ds ms

module _ {qv : QuicVarint} (rfc : IsRfc9000 qv) {L : Type 0} {io : UdpIo (List (List ℕ)) L}
    {max_size : ℕ} {spend : L → ℕ → L} (limits : Limits io max_size spend) where
  -- A message that does not fit into the buffer is dropped.
  send_message-drops :
      (s : SendState (List (List ℕ)) L) (m : UdpMessage)
      → IsSendable m
      → length s.buf < size qv m
      → send_message qv io s m ≡ some (none, s)
  unfolding send_message
  send_message-drops s m h l =
      elim (parse-serialize rfc m s.buf h.in_range h.addressed h.short h.filled) [
        | inl (small, q) ↦ rw q refl
        | inr (large, _, _, _, _, _, _) ↦ absurd (omega arith)
      ]

  -- A message that does is given to the connection as it stands in the buffer.
  send_message-serializes :
      (s : SendState (List (List ℕ)) L) (m : UdpMessage)
      → IsSendable m
      → size qv m ≤ length s.buf
      → (d : List ℕ) × (buf : List ℕ) × (send_message qv io s m
          ≡ some (
              after_datagram io
                (length m.payload)
                (record s { buf = buf })
                (io.send_datagram s.conn d)))
        × (length d ≡ size qv m)
        × (length buf ≡ length s.buf)
        × (parse_udp_message qv d ≡ ok m)
  unfolding send_message
  send_message-serializes s m h l =
      elim (parse-serialize rfc m s.buf h.in_range h.addressed h.short h.filled) [
        | inl (small, q) ↦ absurd (omega arith)
        | inr (large, sent, rest, q, len, same_length, back) ↦
            let front : take (size qv m) (sent ++ rest) ≡ sent =
              ap (λ n. take n (sent ++ rest)) (sym len) ∙ take-append_self sent rest in
            (sent, sent ++ rest, rw (q, front) refl, len, same_length, back)
      ]

  send_all-carries :
      (s : SendState (List (List ℕ)) L) (ms : List UdpMessage)
      → All (λ (m : UdpMessage). IsSendable m × (size qv m ≤ max_size)) ms
      → max_size ≤ length s.buf
      → (ds : List (List ℕ)) × (buf : List ℕ) × (send_all (send_message qv io) s ms
          ≡ some (
            none,
            record { buf = buf; conn = s.conn ++ ds; logged = spend_all spend s.logged ms },
          ))
        × Carry qv max_size ds ms
  unfolding send_all
  send_all-carries s [] a room = ([], s.buf, rw (append-nil s.conn) refl, tt)
  send_all-carries s (m ∷ ms) ((h, fit), a) room =
      let (d, buf, q, len, same_length, back) = send_message-serializes s m h (omega arith) in
      let fits : length d ≤ max_size = omega (arith, len) in
      let s' : SendState (List (List ℕ)) L = record {
        buf = buf;
        conn = s.conn ++ (d ∷ []);
        logged = spend s.logged (length m.payload);
      } in
      let sent : send_message qv io s m ≡ some (none, s') =
        q
        ∙ rw
            (
              limits.takes s.conn d fits,
              limits.allows (length m.payload) (record s { buf = buf; conn = s.conn ++ (d ∷ []) }),
            )
            refl in
      let (ds, buf', q', c) = send_all-carries s' ms a (omega (arith, same_length)) in
      (d ∷ ds, buf', rw (sent, q', append_assoc s.conn (d ∷ []) ds) refl, (back, fits, c))

  abbrev renumbered : ℕ → UdpMessage → UdpMessage
  renumbered draw msg = record msg { packet_id = (draw % 2 ^ 16 + 1) % 2 ^ 16 }

  -- Each fragment can be sent, and has the packet id of its message.
  fragments-IsSendable :
      (msg : UdpMessage) (p n i k id : ℕ)
      → IsSendable msg
      → 0 < p
      → n ≡ fragment_count msg p
      → n ≤ 255
      → i + k ≡ n
      → msg.packet_id ≡ id
      → All (λ (m : UdpMessage). (size qv m ≤ max_size)) (fragments msg p n i k)
      → All (λ (m : UdpMessage). IsSendable m × (size qv m ≤ max_size)) (fragments msg p n i k)
        × All (λ (m : UdpMessage). (m.packet_id ≡ id)) (fragments msg p n i k)
  fragments-IsSendable msg p n i zero id h pos count few e q a = (tt, tt)
  fragments-IsSendable msg p n i (suc k) id h pos count few e q (fit, a) =
      let (b, c) = fragments-IsSendable msg p n (i + 1) k id h pos count few (omega arith) q a in
      let more : i * p < length msg.payload =
        count_lower (length msg.payload) p pos i (omega (arith, count)) in
      (
        (
          (
            record {
              in_range = record {
                session_id_range = h.in_range.session_id_range;
                packet_id_range = h.in_range.packet_id_range;
                frag_id_range = omega arith;
                frag_count_range = omega arith;
              };
              addressed = h.addressed;
              short = h.short;
              filled = omega (
                arith,
                more,
                length-take p (drop (i * p) msg.payload),
                length-drop (i * p) msg.payload,
              );
            },
            fit,
          ),
          b,
        ),
        (q, c),
      )

  renumbered-IsSendable :
      (draw : ℕ) (msg : UdpMessage)
      → draw < 0xFFFF
      → IsSendable msg
      → IsSendable (renumbered draw msg)
  renumbered-IsSendable draw msg small h = record {
    in_range = record {
      session_id_range = h.in_range.session_id_range;
      packet_id_range = omega arith;
      frag_id_range = h.in_range.frag_id_range;
      frag_count_range = h.in_range.frag_count_range;
    };
    addressed = h.addressed;
    short = h.short;
    filled = h.filled;
  }

  -- What `sendMessageAutoFrag` leaves: nothing is sent of a message that does not fit into the buffer; the
  -- fragments of another one are.
  abbrev pub SendOutcome :
      ℕ
      → SendState (List (List ℕ)) L
      → UdpMessage
      → Option (Option SendError × SendState (List (List ℕ)) L)
      → Type 0
  SendOutcome draw s msg result =
      ((length s.buf < size qv msg) × (result ≡ some (none, s)))
      ⊎ ((size qv msg ≤ length s.buf)
          × (ms : List UdpMessage) × (ds : List (List ℕ)) × (buf : List ℕ) × (result
              ≡ some (
                none,
                record { buf = buf; conn = s.conn ++ ds; logged = spend_all spend s.logged ms },
              ))
          × Carry qv max_size ds ms
          × (payloads ms ≡ msg.payload)
          × All (λ (m : UdpMessage). (m.packet_id ≡ draw + 1)) ms)

  -- A message that is too large for a datagram, and whose header leaves room for `p` bytes in one, is sent
  -- in fragments, at most 255, without an error: the connection takes one datagram for each of them, of
  -- which none is too large, and which parse into the fragments of the message under a new packet id that
  -- is not 0; the payloads in order are the message's, and the logger is told of these once each, and
  -- not of the message that was refused. Where the message does not fit into the buffer, it is dropped
  -- without an error, and nothing is sent. The message is one that the wire format can carry, and the
  -- logger asks for no disconnect.
  pub send_message_auto_frag_delivers :
      (draw p : ℕ) (s : SendState (List (List ℕ)) L) (msg : UdpMessage)
      → IsSendable msg
      → draw < 0xFFFF
      → header_size qv msg + p ≡ max_size
      → 0 < p
      → max_size < size qv msg
      → fragment_count msg p ≤ 255
      → SendOutcome draw s msg (send_message_auto_frag (send_message qv io) qv draw s msg)
  unfolding send_message_auto_frag after_send send_fragments
  send_message_auto_frag_delivers draw p s msg h small room pos large few =
      elim (Bool-cases (ltb (length s.buf) (size qv msg))) [
        | inl over ↦
            let short_buf : length s.buf < size qv msg = ground (arith, over) in
            inl (short_buf, rw (send_message-drops s msg h short_buf) refl)
        | inr fits ↦
            let in_buf : size qv msg ≤ length s.buf = ground (arith, fits) in
            let msg' : UdpMessage = renumbered draw msg in
            let n = fragment_count msg' p in
            let wrap : (draw % 2 ^ 16 + 1) % 2 ^ 16 ≡ draw + 1 = omega arith in
            let room' : header_size qv msg' + p ≡ max_size = unfold header_size in room in
            let large' : max_size < size qv msg' = unfold size header_size in large in
            let (q, two, fit, joined) = split_within qv msg' max_size p room' pos large' few in
            let (ready, ids) =
              fragments-IsSendable msg' p n 0 n (draw + 1) (renumbered-IsSendable draw msg small h)
                pos refl few (omega arith) wrap fit in
            let (d, buf, first, len, same_length, back) = send_message-serializes s msg h in_buf in
            let (ds, buf', sent, carry) =
              send_all-carries (record s { buf = buf }) (fragments msg' p n 0 n) ready
                (omega (arith, same_length)) in
            inr (
              in_buf,
              fragments msg' p n 0 n,
              ds,
              buf',
              rw (first, limits.refuses s.conn d (omega (arith, len)), q, sent) refl,
              carry,
              joined,
              ids,
            )
      ]
