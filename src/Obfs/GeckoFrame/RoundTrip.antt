-- ===== src/Obfs/GeckoFrame/RoundTrip.antt =====
-- `decodeFrame` reads what `encodeFrame` writes.
use hysteria.Common.{
  ℕ, ◌+◌, ◌*◌, ◌/◌, ◌%◌, ◌^◌, ◌<◌, ◌≤◌, ◌≡◌, refl, sym, subst, ◌∙◌, ap, bit_and, bit_or, List, [],
  ◌∷◌, ◌++◌, Option, some, Bool, false, ltb, leb, if◌then◌else◌, length, drop, take, get_elem?,
  Result, ok, err, or_panic, ◌>>=◌, arith, length-append, take-append_self, drop-append_self,
  drop-drop,
}
use hysteria.Common.Bits.{bit_and_0x0f, two_halves}
use hysteria.Common.Bytes.BigEndian.{be16}
use hysteria.Common.Bytes.Writes.{fill_buffer, fill_at, write_fills, poke_fills, copy_fills}
use hysteria.Obfs.GeckoFrame.{
  FrameHeader, FrameError, frame_truncated, bad_total, write_frame, encode_frame, read_header,
  check_header, read_marked, decode_frame,
}

-- The fields of a header that `encodeFrame` takes, within their types.
pub record InRange (h : FrameHeader) : Type 0 where
  pub two : 2 ≤ h.total_chunks
  pub eight : h.total_chunks ≤ 8
  pub below : h.chunk_idx < h.total_chunks
  pub pad : h.pad_len < 2 ^ 16

-- The third byte of a header.
abbrev chunk_byte : FrameHeader → ℕ
chunk_byte h = bit_or (h.chunk_idx * 16 % 256) (bit_and h.total_chunks 0x0f)

chunk_byte-eq : (h : FrameHeader) → InRange h → chunk_byte h ≡ h.chunk_idx * 16 + h.total_chunks
chunk_byte-eq h r =
    let v = h.chunk_idx * 16 + h.total_chunks in
    let small : v < 256 = omega (arith, r.two, r.eight, r.below) in
    let high : v / 16 ≡ h.chunk_idx = omega (arith, r.two, r.eight, r.below) in
    let low : v % 16 ≡ h.total_chunks = omega (arith, r.two, r.eight, r.below) in
    subst (λ i. bit_or (i * 16 % 256) (bit_and h.total_chunks 0x0f) ≡ v) high
      (subst (λ t. bit_or (v / 16 * 16 % 256) (bit_and t 0x0f) ≡ v) low (two_halves v small))

-- The frame on the wire.
abbrev header : FrameHeader → List ℕ → List ℕ
header h rest = 0x80 ∷ h.msg_id ∷ chunk_byte h ∷ (be16 h.pad_len ++ rest)

decode-header :
    (h : FrameHeader) (padding payload : List ℕ)
    → InRange h
    → length padding ≡ h.pad_len
    → decode_frame (header h (padding ++ payload)) ≡ ok (h, payload)
unfolding decode_frame
decode-header h padding payload r l =
    let total : bit_and (chunk_byte h) 0x0f ≡ h.total_chunks =
      ap (λ v. bit_and v 0x0f) (chunk_byte-eq h r)
      ∙ bit_and_0x0f (h.chunk_idx * 16 + h.total_chunks) (omega (arith, r.eight, r.below))
      ∙ omega (arith, r.eight) in
    let idx : chunk_byte h / 16 ≡ h.chunk_idx =
      ap (λ v. v / 16) (chunk_byte-eq h r) ∙ omega (arith, r.eight) in
    let pad : h.pad_len / 2 ^ 8 % 256 * 256 + h.pad_len % 256 ≡ h.pad_len = omega (arith, r.pad) in
    let frame = header h (padding ++ payload) in
    let read : read_header frame ≡ ok h = rw (pad, total, idx) refl in
    let long : ltb (length frame) 5 ≡ false = ground arith in
    let good : bad_total h.total_chunks ≡ false = ground (arith, r.two, r.eight) in
    let inside : leb h.total_chunks h.chunk_idx ≡ false = ground (arith, r.below) in
    let room : ltb (length frame) (5 + h.pad_len) ≡ false =
      ground (arith, l, length-append padding payload) in
    let behind : drop (5 + h.pad_len) frame ≡ payload =
      sym (drop-drop h.pad_len 5 frame)
      ∙ subst (λ n. drop n (padding ++ payload) ≡ payload) l (drop-append_self padding payload) in
    let checked : check_header frame h ≡ ok (h, payload) = rw (good, inside, room, behind) refl in
    let parse : Bool → Result FrameError (FrameHeader × List ℕ) = λ b.
      if b then err frame_truncated else (or_panic (get_elem? frame 0) >>= read_marked frame) in
    ap parse long ∙ ap (λ x. x >>= check_header frame) read ∙ checked

encode-header :
    (random : ℕ → Option (List ℕ)) (h : FrameHeader) (padding payload out : List ℕ)
    → InRange h
    → random h.pad_len ≡ some padding
    → length padding ≡ h.pad_len
    → 5 + h.pad_len + length payload ≤ length out
    → (rest : List ℕ) × (encode_frame random h payload out
        ≡ ok (header h (padding ++ payload) ++ rest, 5 + h.pad_len + length payload))
unfolding encode_frame
encode-header random h padding payload out r fills l fits =
    let (b₀, q₀, f₀) = poke_fills (fill_buffer out) (0x80 ∷ []) 0x80 refl (omega arith) in
    let (b₁, q₁, f₁) =
      poke_fills (fill_at 1 (omega arith) f₀) (h.msg_id ∷ []) h.msg_id refl (omega arith) in
    let (b₂, q₂, f₂) =
      poke_fills (fill_at 2 (omega arith) f₁) (chunk_byte h ∷ []) (chunk_byte h) refl
        (omega arith) in
    let (b₃, q₃, f₃) = write_fills (fill_at 3 (omega arith) f₂) (be16 h.pad_len) (omega arith) in
    let (b₄, q₄, f₄) = write_fills (fill_at 5 (omega arith) f₃) padding (omega arith) in
    let (b₅, q₅, f₅) =
      copy_fills (fill_at (5 + h.pad_len) (omega arith) f₄) payload (omega arith) in
    let good : bad_total h.total_chunks ≡ false = ground (arith, r.two, r.eight) in
    let inside : leb h.total_chunks h.chunk_idx ≡ false = ground (arith, r.below) in
    let room : ltb (length out) (5 + h.pad_len + length payload) ≡ false = ground arith in
    let full : b₅ ≡ header h (padding ++ payload) ++ f₅.todo = f₅.is_buf in
    (f₅.todo, rw (good, inside, room, write_frame, q₀, q₁, q₂, q₃, fills, q₄, q₅, full) refl)

-- A header within bounds, a payload, and padding of the header's length from the random source: in a
-- buffer with room, `encodeFrame` writes a frame of the length that it returns, and `decodeFrame` of it
-- gives the header and the payload back, whatever the padding is.
pub decode_frame-encode_frame :
    (random : ℕ → Option (List ℕ)) (h : FrameHeader) (padding payload out : List ℕ)
    → InRange h
    → random h.pad_len ≡ some padding
    → length padding ≡ h.pad_len
    → 5 + h.pad_len + length payload ≤ length out
    → (buf : List ℕ) × (encode_frame random h payload out
        ≡ ok (buf, 5 + h.pad_len + length payload))
      × (decode_frame (take (5 + h.pad_len + length payload) buf) ≡ ok (h, payload))
decode_frame-encode_frame random h padding payload out r fills l fits =
    let (rest, e) = encode-header random h padding payload out r fills l fits in
    let frame = header h (padding ++ payload) in
    let size : length frame ≡ 5 + h.pad_len + length payload =
      omega (arith, l, length-append padding payload) in
    let cut : take (5 + h.pad_len + length payload) (frame ++ rest) ≡ frame =
      subst (λ n. take n (frame ++ rest) ≡ frame) size (take-append_self frame rest) in
    (frame ++ rest, e, ap decode_frame cut ∙ decode-header h padding payload r l)
