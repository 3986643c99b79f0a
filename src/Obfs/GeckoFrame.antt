-- ===== src/Obfs/GeckoFrame.antt =====
-- extras/obfs/gecko_frame.go: the frames of Gecko. `random` is `crypto/rand`'s `Read` on a slice of a
-- length, where `none` is its error.
pub mod RoundTrip
use hysteria.Common.{
  ℕ, ◌+◌, ◌*◌, ◌/◌, ◌%◌, ◌<◌, bit_and, bit_or, List, [], ◌∷◌, Option, none, some, Bool, ltb, leb,
  ◌==◌, ◌||◌, if◌then◌else◌, length, drop, get_elem?, Result, ok, err, panic, or_panic, ◌>>=◌,
}
use hysteria.Common.Bytes.{poke, write, copy}
use hysteria.Common.Bytes.BigEndian.{be16, uint16}

abbrev pub gecko_flag_fragment : ℕ
gecko_flag_fragment = 0x80

abbrev pub gecko_header_size : ℕ
gecko_header_size = 5

abbrev pub gecko_min_fragment_chunks : ℕ
gecko_min_fragment_chunks = 2

abbrev pub gecko_max_fragment_chunks : ℕ
gecko_max_fragment_chunks = 8

-- `errFrameTruncated`, `errFrameInvalid`, and an error of the random source.
pub data FrameError : Type 0 where
  frame_truncated : FrameError
  frame_invalid : FrameError
  random_failed : FrameError

pub record FrameHeader : Type 0 where
  pub pad_len : ℕ
  pub msg_id : ℕ
  pub chunk_idx : ℕ
  pub total_chunks : ℕ

abbrev pub bad_total : ℕ → Bool
bad_total n = ltb n gecko_min_fragment_chunks || ltb gecko_max_fragment_chunks n

-- The error of `rand.Read`.
abbrev pub or_failed : Option (List ℕ) → Result FrameError (List ℕ)
or_failed none = err random_failed
or_failed (some bs) = ok bs

-- What `encodeFrame` writes behind its checks.
unfoldable pub write_frame :
    (ℕ → Option (List ℕ)) → FrameHeader → List ℕ → List ℕ → Result FrameError (List ℕ × ℕ)
write_frame random h payload out = do
  out ← or_panic (poke out 0 gecko_flag_fragment)
  out ← or_panic (poke out 1 h.msg_id)
  out ← or_panic (poke out 2 (bit_or (h.chunk_idx * 16 % 256) (bit_and h.total_chunks 0x0f)))
  out ← or_panic (write out 3 (be16 h.pad_len))
  padding ← or_failed (random h.pad_len)
  out ← or_panic (write out gecko_header_size padding)
  copied ← or_panic (copy out (gecko_header_size + h.pad_len) payload)
  ok (copied.0, gecko_header_size + h.pad_len + length payload)

unfoldable pub encode_frame :
    (ℕ → Option (List ℕ)) → FrameHeader → List ℕ → List ℕ → Result FrameError (List ℕ × ℕ)
unfolding write_frame
encode_frame random h payload out =
    if bad_total h.total_chunks
    then err frame_invalid
    else if leb h.total_chunks h.chunk_idx
    then err frame_invalid
    else if ltb (length out) (gecko_header_size + h.pad_len + length payload)
    then err frame_truncated
    else write_frame random h payload out

-- The header's fields.
abbrev pub read_header : List ℕ → Result FrameError FrameHeader
read_header frame = do
  id ← or_panic (get_elem? frame 1)
  chunk ← or_panic (get_elem? frame 2)
  pad ← or_panic (uint16 (drop 3 frame))
  ok (record {
    pad_len = pad;
    msg_id = id;
    chunk_idx = chunk / 16;
    total_chunks = bit_and chunk 0x0f;
  })

abbrev pub check_header : List ℕ → FrameHeader → Result FrameError (FrameHeader × List ℕ)
check_header frame h =
    if bad_total h.total_chunks
    then err frame_invalid
    else if leb h.total_chunks h.chunk_idx
    then err frame_invalid
    else if ltb (length frame) (gecko_header_size + h.pad_len)
    then err frame_truncated
    else ok (h, drop (gecko_header_size + h.pad_len) frame)

abbrev pub read_marked : List ℕ → ℕ → Result FrameError (FrameHeader × List ℕ)
read_marked frame first =
    if bit_and first gecko_flag_fragment == 0
    then err frame_invalid
    else (read_header frame >>= check_header frame)

unfoldable pub decode_frame : List ℕ → Result FrameError (FrameHeader × List ℕ)
decode_frame frame =
    if ltb (length frame) gecko_header_size
    then err frame_truncated
    else (or_panic (get_elem? frame 0) >>= read_marked frame)
