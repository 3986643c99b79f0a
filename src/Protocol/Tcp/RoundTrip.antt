-- ===== src/Protocol/Tcp/RoundTrip.antt =====
-- Requests and responses: the reader takes back what the writer wrote.
use hysteria.Common.{
  ℕ, ◌+◌, ◌≤◌, ◌<◌, ◌≡◌, refl, ap, List, [], ◌∷◌, ◌++◌, some, Bool, arith, append_assoc, length,
  if◌then◌else◌, ok,
}
use hysteria.Common.Bytes.Writes.{fill_start, fill_at, fill_done, poke_fills, copy_fills}
use hysteria.Common.Bytes.Readers.{read_full-append, discard-append}
use hysteria.Protocol.{
  frame_type_tcp_request, max_address_length, max_message_length, max_padding_length,
}
use hysteria.Protocol.Varint.{QuicVarint, IsRfc9000, varint_bytes}
use hysteria.Protocol.Varint.Encode.{Encodes, encode, read-encoding, varint_put_fills}
use hysteria.Protocol.Tcp.Read.{read_padding, read_tcp_request, read_tcp_response}
use hysteria.Protocol.Tcp.Write.{write_tcp_request, write_tcp_response}

append-empty : (p rest : List ℕ) → length p ≡ 0 → p ++ rest ≡ rest
append-empty [] rest l = refl
append-empty (x ∷ p) rest l = absurd (omega arith)

frame_type_bytes :
    {bs : List ℕ} → varint_bytes frame_type_tcp_request ≡ some bs → bs ≡ 0x44 ∷ 0x01 ∷ []
unfolding varint_bytes
frame_type_bytes h = cc

module _ {qv : QuicVarint} (rfc : IsRfc9000 qv) (padding : List ℕ) where
  read_padding-append :
      {bs₂ : List ℕ}
      → Encodes qv (length padding) bs₂
      → length padding ≤ max_padding_length
      → (rest : List ℕ) → read_padding qv (bs₂ ++ (padding ++ rest)) ≡ ok rest
  unfolding read_padding
  read_padding-append {bs₂} e h rest = ground (
    arith,
    read-encoding rfc e (padding ++ rest),
    discard-append (length padding) padding rest refl,
    append-empty padding rest,
  )

module _ {qv : QuicVarint} (rfc : IsRfc9000 qv) (padding text : List ℕ) where
  -- The buffer of a request is filled exactly.
  write_tcp_request-layout :
      {bs₀ bs₁ bs₂ : List ℕ}
      → Encodes qv frame_type_tcp_request bs₀
      → Encodes qv (length text) bs₁
      → Encodes qv (length padding) bs₂
      → write_tcp_request qv padding text ≡ some ((((bs₀ ++ bs₁) ++ text) ++ bs₂) ++ padding)
  unfolding write_tcp_request
  write_tcp_request-layout {bs₀} {bs₁} {bs₂} e₀ e₁ e₂ =
      let n = length bs₀ + length bs₁ + length text + length bs₂ + length padding in
      let (b₀, q₀, f₀) = varint_put_fills rfc e₀ (fill_start n) (omega arith) in
      let (b₁, q₁, f₁) =
        varint_put_fills rfc e₁ (fill_at (length bs₀) (omega arith) f₀) (omega arith) in
      let (b₂, q₂, f₂) = copy_fills f₁ text (omega arith) in
      let (b₃, q₃, f₃) = varint_put_fills rfc e₂ f₂ (omega arith) in
      let (b₄, q₄, f₄) = copy_fills f₃ padding (omega arith) in
      rw (e₀.size, e₁.size, e₂.size, q₀, q₁, q₂, q₃, q₄) (ap some (fill_done f₄ (omega arith)))

  -- So is the buffer of a response.
  write_tcp_response-layout :
      {bs₁ bs₂ : List ℕ} (done : Bool)
      → Encodes qv (length text) bs₁
      → Encodes qv (length padding) bs₂
      → write_tcp_response qv padding done text
        ≡ some ((((((if done then 0 else 1) ∷ []) ++ bs₁) ++ text) ++ bs₂) ++ padding)
  unfolding write_tcp_response
  write_tcp_response-layout {bs₁} {bs₂} done e₁ e₂ =
      let n = 1 + length bs₁ + length text + length bs₂ + length padding in
      let status : ℕ = if done then 0 else 1 in
      let (b₀, q₀, f₀) = poke_fills (fill_start n) (status ∷ []) status refl (omega arith) in
      let (b₁, q₁, f₁) = varint_put_fills rfc e₁ (fill_at 1 (omega arith) f₀) (omega arith) in
      let (b₂, q₂, f₂) = copy_fills f₁ text (omega arith) in
      let (b₃, q₃, f₃) =
        varint_put_fills rfc e₂ (fill_at (1 + (length bs₁ + length text)) (omega arith) f₂)
          (omega arith) in
      let (b₄, q₄, f₄) =
        copy_fills (fill_at (1 + (length bs₁ + length text + length bs₂)) (omega arith) f₃) padding
          (omega arith) in
      rw (e₁.size, e₂.size, q₀, q₁, q₂, q₃, q₄) (ap some (fill_done f₄ (omega arith)))

  read_tcp_request-append :
      {bs₁ bs₂ : List ℕ}
      → Encodes qv (length text) bs₁
      → Encodes qv (length padding) bs₂
      → 0 < length text
      → length text ≤ max_address_length
      → length padding ≤ max_padding_length
      → (rest : List ℕ)
      → read_tcp_request qv (bs₁ ++ (text ++ (bs₂ ++ (padding ++ rest)))) ≡ ok (text, rest)
  unfolding read_tcp_request
  read_tcp_request-append {bs₁} {bs₂} e₁ e₂ lo hi hp rest = ground (
    arith,
    read-encoding rfc e₁ (text ++ (bs₂ ++ (padding ++ rest))),
    read_full-append (length text) text (bs₂ ++ (padding ++ rest)) refl,
    read_padding-append rfc padding e₂ hp rest,
  )

  read_tcp_response-append :
      {bs₁ bs₂ : List ℕ} (done : Bool)
      → Encodes qv (length text) bs₁
      → Encodes qv (length padding) bs₂
      → length text ≤ max_message_length
      → length padding ≤ max_padding_length
      → (rest : List ℕ)
      → read_tcp_response qv
          ((if done then 0 else 1) ∷ (bs₁ ++ (text ++ (bs₂ ++ (padding ++ rest)))))
        ≡ ok (done, text, rest)
  unfolding read_tcp_response
  read_tcp_response-append {bs₁} {bs₂} done e₁ e₂ hi hp rest =
      let status : ℕ = if done then 0 else 1 in
      let tail = text ++ (bs₂ ++ (padding ++ rest)) in
      ground (
        arith,
        read_full-append 1 (status ∷ []) (bs₁ ++ tail) refl,
        read-encoding rfc e₁ tail,
        read_full-append (length text) text (bs₂ ++ (padding ++ rest)) refl,
        read_padding-append rfc padding e₂ hp rest,
        append-empty text (bs₂ ++ (padding ++ rest)),
      )

  -- A request that `WriteTCPRequest` writes is the frame type, which the stream's dispatcher takes
  -- off, and a body from which `ReadTCPRequest` returns the same address and leaves what follows.
  -- The address has 1 to 2048 bytes, and the padding at most 4096; the writer does not panic.
  pub read_tcp_request-write :
      (rest : List ℕ)
      → 0 < length text
      → length text ≤ max_address_length
      → length padding ≤ max_padding_length
      → (body : List ℕ) × (write_tcp_request qv padding text ≡ some (0x44 ∷ 0x01 ∷ body))
        × (read_tcp_request qv (body ++ rest) ≡ ok (text, rest))
  read_tcp_request-write rest lo hi hp =
      let (bs₀, e₀) = encode rfc frame_type_tcp_request (omega arith) in
      let (bs₁, e₁) = encode rfc (length text) (omega arith) in
      let (bs₂, e₂) = encode rfc (length padding) (omega arith) in
      (
        bs₁ ++ (text ++ (bs₂ ++ padding)),
        rw (write_tcp_request-layout e₀ e₁ e₂, frame_type_bytes e₀.written) (simp append_assoc),
        simp append_assoc (read_tcp_request-append e₁ e₂ lo hi hp rest),
      )

  -- `ReadTCPResponse` returns the status and the message that `WriteTCPResponse` wrote, and leaves
  -- what follows. The message has at most 2048 bytes, and the padding at most 4096; the writer does
  -- not panic.
  pub read_tcp_response-write :
      (done : Bool) (rest : List ℕ)
      → length text ≤ max_message_length
      → length padding ≤ max_padding_length
      → (sent : List ℕ) × (write_tcp_response qv padding done text ≡ some sent)
        × (read_tcp_response qv (sent ++ rest) ≡ ok (done, text, rest))
  read_tcp_response-write done rest hi hp =
      let (bs₁, e₁) = encode rfc (length text) (omega arith) in
      let (bs₂, e₂) = encode rfc (length padding) (omega arith) in
      (
        (if done then 0 else 1) ∷ (bs₁ ++ (text ++ (bs₂ ++ padding))),
        rw (write_tcp_response-layout done e₁ e₂) (simp append_assoc),
        simp append_assoc (read_tcp_response-append done e₁ e₂ hi hp rest),
      )
