-- ===== src/Protocol/Varint.antt =====
-- QUIC variable-length integers: quic-go's `quicvarint` package, which is not part of the
-- repository, as a parameter with the laws of RFC 9000, section 16, and `varintPut` of
-- core/internal/protocol/proxy.go.
pub mod Encode
pub mod Rfc9000
use hysteria.Common.{
  ℕ, ◌+◌, ◌*◌, ◌/◌, ◌%◌, ◌^◌, ◌≤◌, ◌<◌, ◌≡◌, refl, ◌≢◌, List, [], ◌∷◌, ◌++◌, Option, none, some,
  bit_or, arith, leb, if◌then◌else◌, length, drop, Result, ok, err, panic,
}
use hysteria.Common.Bytes.{write}
use hysteria.Common.Bytes.Readers.{IoError}
use hysteria.Common.Results.Panics.{◌>>=◌}

-- `quicvarint.Len`, `quicvarint.Read` (the value, and what the reader still holds) and
-- `quicvarint.Parse` (the value, and the number of bytes that it takes).
pub record QuicVarint : Type 0 where
  pub len : ℕ → ℕ
  pub read : List ℕ → Result IoError (ℕ × List ℕ)
  pub parse : List ℕ → Result IoError (ℕ × ℕ)

-- The two high bits of the first byte are the base-2 logarithm of the length in bytes; what is
-- left is the number, in network byte order. `Len` is the length of the shortest form.
pub record IsRfc9000 (qv : QuicVarint) : Type 0 where
  pub len_1 : (i : ℕ) → i < 2 ^ 6 → qv.len i ≡ 1
  pub len_2 : (i : ℕ) → 2 ^ 6 ≤ i → i < 2 ^ 14 → qv.len i ≡ 2
  pub len_4 : (i : ℕ) → 2 ^ 14 ≤ i → i < 2 ^ 30 → qv.len i ≡ 4
  pub len_8 : (i : ℕ) → 2 ^ 30 ≤ i → i < 2 ^ 62 → qv.len i ≡ 8
  pub parse_1 : (a : ℕ) (r : List ℕ) → a < 64 → qv.parse (a ∷ r) ≡ ok (a, 1)
  pub parse_2 :
      (a b : ℕ) (r : List ℕ) → a < 64 → qv.parse ((64 + a) ∷ b ∷ r) ≡ ok (a * 2 ^ 8 + b, 2)
  pub parse_4 :
      (a b c d : ℕ) (r : List ℕ)
      → a < 64
      → qv.parse ((128 + a) ∷ b ∷ c ∷ d ∷ r) ≡ ok (a * 2 ^ 24 + b * 2 ^ 16 + c * 2 ^ 8 + d, 4)
  pub parse_8 :
      (a b c d e f g h : ℕ) (r : List ℕ)
      → a < 64
      → qv.parse ((192 + a) ∷ b ∷ c ∷ d ∷ e ∷ f ∷ g ∷ h ∷ r)
        ≡ ok (
          a * 2 ^ 56
              + b * 2 ^ 48
              + c * 2 ^ 40
              + d * 2 ^ 32
              + (e * 2 ^ 24 + f * 2 ^ 16 + g * 2 ^ 8 + h),
          8,
        )
  pub parse_within : (bs : List ℕ) (v n : ℕ) → qv.parse bs ≡ ok (v, n) → n ≤ length bs
  pub parse_total : (bs : List ℕ) → qv.parse bs ≢ panic
  -- `Read` takes from the reader what `Parse` takes from the slice.
  pub read_parse :
      (bs : List ℕ) (v n : ℕ) → qv.parse bs ≡ ok (v, n) → qv.read bs ≡ ok (v, drop n bs)
  pub parse_read :
      (bs r : List ℕ) (v : ℕ)
      → qv.read bs ≡ ok (v, r)
      → (n : ℕ) × (qv.parse bs ≡ ok (v, n)) × (r ≡ drop n bs)
  pub read_total : (bs : List ℕ) → qv.read bs ≢ panic

abbrev pub max_var_int1 : ℕ
max_var_int1 = 63

abbrev pub max_var_int2 : ℕ
max_var_int2 = 16383

abbrev pub max_var_int4 : ℕ
max_var_int4 = 1073741823

abbrev pub max_var_int8 : ℕ
max_var_int8 = 4611686018427387903

-- `uint8(i >> k)`
abbrev pub byte_at : ℕ → ℕ → ℕ
byte_at i k = i / 2 ^ k % 256

-- The bytes that `varintPut` assigns, in order; `none` is its panic.
unfoldable pub varint_bytes : ℕ → Option (List ℕ)
varint_bytes i =
    if leb i max_var_int1
    then some ((i % 256) ∷ [])
    else if leb i max_var_int2
    then some (bit_or (byte_at i 8) 0x40 ∷ (i % 256) ∷ [])
    else if leb i max_var_int4
    then some (bit_or (byte_at i 24) 0x80 ∷ byte_at i 16 ∷ byte_at i 8 ∷ (i % 256) ∷ [])
    else if leb i max_var_int8
    then some (
        bit_or (byte_at i 56) 0xc0
        ∷ byte_at i 48
        ∷ byte_at i 40
        ∷ byte_at i 32
        ∷ byte_at i 24
        ∷ byte_at i 16
        ∷ byte_at i 8
        ∷ (i % 256)
        ∷ [])
    else none

-- `varintPut(b[off:], i)`: the new `b` and the number of bytes written.
unfoldable pub varint_put : List ℕ → ℕ → ℕ → Option (List ℕ × ℕ)
unfolding varint_bytes
varint_put b off i = do bs ← varint_bytes i; b' ← write b off bs; some (b', length bs)
