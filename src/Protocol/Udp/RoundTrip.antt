-- ===== src/Protocol/Udp/RoundTrip.antt =====
-- Datagrams: `ParseUDPMessage` takes back what `Serialize` wrote.
use hysteria.Common.{
  ◌⊎◌, inl, inr, Bool-cases, ℕ, ◌+◌, ◌-◌, ◌≤◌, ◌<◌, ◌≡◌, refl, ap, ◌∙◌, List, [], ◌∷◌, ◌++◌, none,
  some, arith, append_assoc, length, length-append, drop, take-append_self, drop-append_self,
  take_all, false, ltb, lt→ltb, leb, ok, get_elem?,
}
use hysteria.Common.Bytes.Writes.{fill_buffer, fill_at, write_fills, poke_fills, copy_fills}
use hysteria.Common.Bytes.BigEndian.{be16, be32, uint16, uint32, uint16-be16, uint32-be32}
use hysteria.Protocol.{max_message_length}
use hysteria.Protocol.Varint.{QuicVarint, IsRfc9000}
use hysteria.Protocol.Varint.Encode.{Encodes, encode, varint_put_fills}
use hysteria.Protocol.Udp.{UdpMessage, InRange, size, serialize}
use hysteria.Protocol.Udp.Parse.{slice, fields, parse_udp_message}

-- The fixed fields of the header, then the rest of the message.
abbrev pub header : UdpMessage → List ℕ → List ℕ
header m r = be32 m.session_id ++ (be16 m.packet_id ++ (m.frag_id ∷ m.frag_count ∷ r))

regroup : (a b c t : List ℕ) → ((a ++ b) ++ c) ++ t ≡ (a ++ (b ++ c)) ++ t
regroup a b c t = rw (append_assoc a b c)

-- `fields` on a message whose parts are known.
fields_lem :
    (msg : List ℕ) (from to : ℕ) {m : UdpMessage}
    → uint32 msg ≡ some m.session_id
    → uint16 (drop 4 msg) ≡ some m.packet_id
    → get_elem? msg 6 ≡ some m.frag_id
    → get_elem? msg 7 ≡ some m.frag_count
    → slice msg from to ≡ some m.addr
    → slice msg to (length msg) ≡ some m.payload
    → fields msg from to ≡ ok m
unfolding fields
fields_lem msg from to a b c d e f = rw (a, b, c, d, e, f)

-- A slice that is known to stand in the middle.
slice-append :
    (xs ys zs : List ℕ) (from to : ℕ)
    → from ≡ length xs
    → to ≡ length xs + length ys
    → slice (xs ++ (ys ++ zs)) from to ≡ some ys
unfolding slice
slice-append xs ys zs from to h k = ground (
  arith,
  length-append xs (ys ++ zs),
  length-append ys zs,
  drop-append_self xs (ys ++ zs),
  take-append_self ys zs,
)

slice-header :
    (m : UdpMessage) (xs ys zs : List ℕ)
    → slice (header m (xs ++ (ys ++ zs))) (8 + length xs) (8 + length xs + length ys) ≡ some ys
slice-header m xs ys zs =
    slice-append (header m xs) ys zs (8 + length xs) (8 + length xs + length ys) (omega arith)
      (omega arith)

slice_end :
    (xs ys : List ℕ) (from to : ℕ)
    → from ≡ length xs
    → to ≡ length xs + length ys
    → slice (xs ++ ys) from to ≡ some ys
unfolding slice
slice_end xs ys from to h k =
    ground (arith, length-append xs ys, drop-append_self xs ys, take_all (to - from) ys)

slice-header_end :
    (m : UdpMessage) (xs ys zs : List ℕ)
    → slice
        (header m (xs ++ (ys ++ zs)))
        (8 + length xs + length ys)
        (length (header m (xs ++ (ys ++ zs))))
      ≡ some zs
slice-header_end m xs ys zs = rw (← append_assoc xs ys zs) (
    slice_end (header m (xs ++ ys)) zs _ _ (omega (arith, length-append xs ys))
      (omega (arith, length-append (xs ++ ys) zs)))

serialize_refuses :
    (qv : QuicVarint) (m : UdpMessage) (buf : List ℕ)
    → length buf < size qv m
    → serialize qv m buf ≡ some (buf, none)
unfolding serialize
serialize_refuses qv m buf h = rw (lt→ltb _ _ h)

module _ {qv : QuicVarint} (rfc : IsRfc9000 qv) (m : UdpMessage) {bs : List ℕ}
    (e : Encodes qv (length m.addr) bs) where
  abbrev wire : List ℕ
  wire = header m (bs ++ (m.addr ++ m.payload))

  serialize-layout :
      (buf : List ℕ)
      → size qv m ≤ length buf
      → (rest : List ℕ) × (serialize qv m buf ≡ some (wire ++ rest, some (size qv m)))
        × (length wire ≡ size qv m)
        × (length rest + size qv m ≡ length buf)
  unfolding serialize
  serialize-layout buf h =
      let (b₀, q₀, f₀) =
        write_fills (fill_buffer buf) (be32 m.session_id) (omega (arith, e.size)) in
      let (b₁, q₁, f₁) =
        write_fills (fill_at 4 (omega arith) f₀) (be16 m.packet_id) (omega (arith, e.size)) in
      let (b₂, q₂, f₂) =
        poke_fills (fill_at 6 (omega arith) f₁) (m.frag_id ∷ []) m.frag_id refl
          (omega (arith, e.size)) in
      let (b₃, q₃, f₃) =
        poke_fills (fill_at 7 (omega arith) f₂) (m.frag_count ∷ []) m.frag_count refl
          (omega (arith, e.size)) in
      let (b₄, q₄, f₄) =
        varint_put_fills rfc e (fill_at 8 (omega arith) f₃) (omega (arith, e.size)) in
      let (b₅, q₅, f₅) = copy_fills f₄ m.addr (omega (arith, e.size)) in
      let (b₆, q₆, f₆) =
        copy_fills (fill_at (8 + (length bs + length m.addr)) (omega arith) f₅) m.payload
          (omega (arith, e.size)) in
      let fits : ltb (length buf) (size qv m) ≡ false = ground arith in
      let full : b₆ ≡ wire ++ f₆.todo =
        f₆.is_buf ∙ ap (header m) (regroup bs m.addr m.payload f₆.todo) in
      let count : 8 + (length bs + length m.addr + length m.payload) ≡ size qv m =
        omega (arith, e.size) in
      (
        f₆.todo,
        rw (fits, q₀, q₁, q₂, q₃, q₄, q₅, q₆, full, count),
        omega
            (arith, e.size, length-append bs (m.addr ++ m.payload), length-append m.addr m.payload),
        omega (arith, e.size, f₆.is_room),
      )

  -- `fields` finds the header's fields, the address and the payload.
  fields-wire : InRange m → fields wire (8 + length bs) (8 + length bs + length m.addr) ≡ ok m
  fields-wire r =
      fields_lem wire (8 + length bs) (8 + length bs + length m.addr)
        (uint32-be32 m.session_id [] r.session_id_range)
        (uint16-be16 m.packet_id [] r.packet_id_range) refl refl
        (slice-header m bs m.addr m.payload) (slice-header_end m bs m.addr m.payload)

  parse-wire :
      InRange m
      → 0 < length m.addr
      → length m.addr ≤ max_message_length
      → 0 < length m.payload
      → parse_udp_message qv wire ≡ ok m
  unfolding parse_udp_message
  parse-wire r lo hi more = ground (
    arith,
    e.decodes (m.addr ++ m.payload),
    length-append bs (m.addr ++ m.payload),
    length-append m.addr m.payload,
    fields-wire r,
  )

-- `Serialize` refuses a buffer that is shorter than the message, and leaves it alone. Into any other
-- it writes the wire format in front, keeps the length of the buffer, and returns the message's
-- size; `ParseUDPMessage` then returns the same message from what was written. The fields are in the
-- range of their types, the address has 1 to 2048 bytes, and there is a payload.
pub parse-serialize :
    {qv : QuicVarint}
    → IsRfc9000 qv
    → (m : UdpMessage) (buf : List ℕ) → InRange m
    → 0 < length m.addr
    → length m.addr ≤ max_message_length
    → 0 < length m.payload
    → ((length buf < size qv m) × (serialize qv m buf ≡ some (buf, none)))
      ⊎ ((size qv m ≤ length buf)
          × (sent rest : List ℕ) × (serialize qv m buf ≡ some (sent ++ rest, some (size qv m)))
          × (length sent ≡ size qv m)
          × (length (sent ++ rest) ≡ length buf)
          × (parse_udp_message qv sent ≡ ok m))
parse-serialize {qv} rfc m buf r lo hi more =
    let (bs, e) = encode rfc (length m.addr) (omega arith) in
    elim (Bool-cases (leb (size qv m) (length buf))) [
      | inr h ↦ inl (ground (arith, h), serialize_refuses qv m buf (ground (arith, h)))
      | inl h ↦
          (let fits : size qv m ≤ length buf = ground (arith, h) in
            let (rest, q, n, k) = serialize-layout rfc m e buf fits in
            inr (
              fits,
              wire rfc m e,
              rest,
              q,
              n,
              omega (arith, length-append (wire rfc m e) rest),
              parse-wire rfc m e r lo hi more,
            ))
    ]
