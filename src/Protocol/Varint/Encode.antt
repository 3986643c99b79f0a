-- ===== src/Protocol/Varint/Encode.antt =====
-- What `varintPut` writes: the shortest form of RFC 9000, which the decoder reads back.
use hysteria.Common.{
  ℕ, ◌+◌, ◌-◌, ◌%◌, ◌^◌, ◌≤◌, ◌<◌, ◌≡◌, ap, ◌∙◌, List, [], ◌∷◌, ◌++◌, some, arith, leb, length, ok,
  inl, inr, drop-append_self, Bool-cases,
}
use hysteria.Common.Bits.{bit_or_0x40, bit_or_0x80, bit_or_0xc0}
use hysteria.Common.Bytes.{AreBytes}
use hysteria.Common.Bytes.Writes.{Filling, write_fills}
use hysteria.Protocol.Varint.{QuicVarint, IsRfc9000, byte_at, varint_bytes, varint_put}

-- The bytes of `i`: as many as `Len` says, and decoded to `i` whatever follows.
pub record Encodes (qv : QuicVarint) (i : ℕ) (bs : List ℕ) : Type 0 where
  pub written : varint_bytes i ≡ some bs
  pub size : qv.len i ≡ length bs
  pub bytes : AreBytes bs
  pub decodes : (r : List ℕ) → qv.parse (bs ++ r) ≡ ok (i, length bs)

module _ {qv : QuicVarint} (rfc : IsRfc9000 qv) (i : ℕ) where
  encode_1 : i < 2 ^ 6 → Encodes qv i ((i % 256) ∷ [])
  unfolding varint_bytes
  encode_1 h = record {
    written = ground arith;
    size = rfc.len_1 i h;
    bytes = omega arith;
    decodes = λ r. ground (arith, rfc.parse_1 (i % 256) r);
  }

  encode_2 : 2 ^ 6 ≤ i → i < 2 ^ 14 → Encodes qv i ((64 + byte_at i 8) ∷ (i % 256) ∷ [])
  unfolding varint_bytes
  encode_2 l h = record {
    written = ground (arith, bit_or_0x40 (byte_at i 8));
    size = rfc.len_2 i l h;
    bytes = omega arith;
    decodes = λ r. ground (arith, rfc.parse_2 (byte_at i 8) (i % 256) r);
  }

  encode_4 :
      2 ^ 14 ≤ i
      → i < 2 ^ 30
      → Encodes qv i ((128 + byte_at i 24) ∷ byte_at i 16 ∷ byte_at i 8 ∷ (i % 256) ∷ [])
  unfolding varint_bytes
  encode_4 l h = record {
    written = ground (arith, bit_or_0x80 (byte_at i 24));
    size = rfc.len_4 i l h;
    bytes = omega arith;
    decodes =
        λ r. ground (arith, rfc.parse_4 (byte_at i 24) (byte_at i 16) (byte_at i 8) (i % 256) r);
  }

  encode_8 :
      2 ^ 30 ≤ i
      → i < 2 ^ 62
      → Encodes qv i (
          (192 + byte_at i 56)
          ∷ byte_at i 48
          ∷ byte_at i 40
          ∷ byte_at i 32
          ∷ byte_at i 24
          ∷ byte_at i 16
          ∷ byte_at i 8
          ∷ (i % 256)
          ∷ [])
  unfolding varint_bytes
  encode_8 l h = record {
    written = ground (arith, bit_or_0xc0 (byte_at i 56));
    size = rfc.len_8 i l h;
    bytes = omega arith;
    decodes = λ r. ground (
      arith,
      rfc.parse_8 (byte_at i 56) (byte_at i 48) (byte_at i 40) (byte_at i 32) (byte_at i 24)
          (byte_at i 16) (byte_at i 8) (i % 256) r,
    );
  }

  pub encode : i < 2 ^ 62 → (bs : List ℕ) × Encodes qv i bs
  encode h = elim (Bool-cases (leb (2 ^ 6) i)) [
    | inr a ↦ (_, encode_1 (ground arith))
    | inl a ↦ elim (Bool-cases (leb (2 ^ 14) i)) [
      | inr b ↦ (_, encode_2 (ground arith) (ground arith))
      | inl b ↦ elim (Bool-cases (leb (2 ^ 30) i)) [
        | inr c ↦ (_, encode_4 (ground arith) (ground arith))
        | inl c ↦ (_, encode_8 (ground arith) h)
      ]
    ]
  ]

module _ {qv : QuicVarint} (rfc : IsRfc9000 qv) {i : ℕ} {bs : List ℕ} (e : Encodes qv i bs) where
  -- The reader decodes what was written, and keeps what follows.
  pub read-encoding : (r : List ℕ) → qv.read (bs ++ r) ≡ ok (i, r)
  read-encoding r =
      rfc.read_parse (bs ++ r) i (length bs) (e.decodes r)
      ∙ ap (λ k. ok (i, k)) (drop-append_self bs r)

  -- `varintPut` behind what is written already, with room for the bytes.
  pub varint_put_fills :
      {buf front : List ℕ} {off room : ℕ}
      → Filling buf front off room
      → length bs ≤ room
      → (b : List ℕ) × (varint_put buf off i ≡ some (b, length bs))
        × Filling b (front ++ bs) (off + length bs) (room - length bs)
  unfolding varint_put
  varint_put_fills f h = let (b, q, g) = write_fills f bs h in (b, rw (e.written, q), g)
