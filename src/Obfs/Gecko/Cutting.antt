-- ===== src/Obfs/Gecko/Cutting.antt =====
-- The send path of extras/obfs/gecko.go: a packet cut into chunks, each in a frame with padding. `draw` is
-- what 4 bytes of `crypto/rand` give, `write_to` the inner connection's, on a state of its own.
use hysteria.Common.{
  ℕ, zero, suc, ◌+◌, ◌-◌, ◌*◌, ◌/◌, ◌%◌, ◌^◌, ◌≤◌, ◌<◌, ◌≡◌, ◌⊎◌, sym, ◌∙◌, ap, ap₂, append-nil,
  max, List, [], ◌++◌, Option, none, some, true, false, ltb, leb, if◌then◌else◌, length, take, drop,
  replicate, Result, ok, err, panic, arith, take-append-drop, drop-drop,
}
use hysteria.Obfs.GeckoFrame.{
  FrameHeader, FrameError, encode_frame, gecko_header_size, gecko_min_fragment_chunks,
  gecko_max_fragment_chunks,
}
use hysteria.Obfs.Salamander.{sm_salt_len}
use native.Mathlib.Nat.{mod-lt, suc-mul}

abbrev pub rand_intn : ℕ → ℕ → ℕ
rand_intn draw n = if leb n 1 then 0 else draw % n

-- The result is a uint16.
unfoldable pub random_pad_len : ℕ → ℕ → ℕ → ℕ → ℕ
random_pad_len draw min_pkt max_pkt chunk_len =
    let base = sm_salt_len + gecko_header_size + chunk_len in
    let lo = max min_pkt base in
    if ltb max_pkt lo then 0 else (lo - base + rand_intn draw (max_pkt - lo + 1)) % 2 ^ 16

abbrev pub random_fragment_chunks : ℕ → ℕ
random_fragment_chunks draw =
    gecko_min_fragment_chunks
    + rand_intn draw (gecko_max_fragment_chunks - gecko_min_fragment_chunks + 1)

-- `p[start:end]` of chunk `i`: the last one goes to the end.
abbrev pub chunk_of : List ℕ → ℕ → ℕ → List ℕ
chunk_of p chunks i =
    let size = length p / chunks in
    if ltb (i + 1) chunks then take size (drop (i * size) p) else drop (i * size) p

pub data WriteError : Type 0 where
  frame_error : FrameError → WriteError
  inner_error : ℕ → WriteError

module _ {S : Type 0} (random : ℕ → Option (List ℕ)) (write_to : S → List ℕ → Option ℕ × S)
    (min_pkt max_pkt : ℕ) (draws : ℕ → ℕ) where
  -- The loop from chunk `i` on, with `k` to go.
  unfoldable pub write_chunks : S → List ℕ → ℕ → ℕ → ℕ → ℕ → Result WriteError ℕ × S
  unfolding random_pad_len encode_frame
  write_chunks s p msg_id chunks i zero = (ok (length p), s)
  write_chunks s p msg_id chunks i (suc k) =
      let chunk = chunk_of p chunks i in
      let pad_len = random_pad_len (draws i) min_pkt max_pkt (length chunk) in
      let h : FrameHeader = record {
        pad_len = pad_len;
        msg_id = msg_id;
        chunk_idx = i % 256;
        total_chunks = chunks % 256;
      } in
      let size = gecko_header_size + pad_len + length chunk in
      let frame = encode_frame random h chunk (replicate size 0) in
      let sent : List ℕ → Option ℕ × S = write_to s in
      let rest : S → Result WriteError ℕ × S = λ s'. write_chunks s' p msg_id chunks (i + 1) k in
      elim frame [
        | err e ↦ (err (frame_error e), s)
        | panic ↦ (panic, s)
        | ok (buf, n) ↦
            let (e, s') = sent (take n buf) in
            let after = rest s' in elim e [ none ↦ after | some x ↦ (err (inner_error x), s') ]
      ]

  -- `counter` is the connection's `msgID`, a uint32; its next value comes back.
  unfoldable pub write_fragmented : S → ℕ → ℕ → List ℕ → Result WriteError ℕ × S × ℕ
  unfolding write_chunks
  write_fragmented s counter draw p =
      let chunks = random_fragment_chunks draw in
      let counter' = (counter + 1) % 2 ^ 32 in
      let (r, s') = write_chunks s p (counter' % 256) chunks 0 chunks in (r, s', counter')

add-one-mul : (s i : ℕ) → i * s + s ≡ (i + 1) * s
add-one-mul s i = let e : i + 1 ≡ suc i = omega arith in sym (ap (λ n. n * s) e ∙ suc-mul i s)

-- Pieces from `i` on, one behind the other.
abbrev pub concat_from : (ℕ → List ℕ) → ℕ → ℕ → List ℕ
concat_from piece i zero = []
concat_from piece i (suc k) = piece i ++ concat_from piece (i + 1) k

rest_of_chunks :
    (p : List ℕ) (chunks i k : ℕ)
    → i + suc k ≡ chunks
    → concat_from (chunk_of p chunks) i (suc k) ≡ drop (i * (length p / chunks)) p
rest_of_chunks p chunks i zero e =
    let is_last : ltb (i + 1) chunks ≡ false = ground (arith, e) in
    rw is_last (append-nil (drop (i * (length p / chunks)) p))
rest_of_chunks p chunks i (suc k) e =
    let size = length p / chunks in
    let inner : ltb (i + 1) chunks ≡ true = ground (arith, e) in
    let moved : i * size + size ≡ (i + 1) * size = add-one-mul size i in
    let rest : concat_from (chunk_of p chunks) (i + 1) (suc k) ≡ drop size (drop (i * size) p) =
      rest_of_chunks p chunks (i + 1) k (omega (arith, e))
      ∙ ap (λ n. drop n p) (sym moved)
      ∙ sym (drop-drop size (i * size) p) in
    let first : chunk_of p chunks i ≡ take size (drop (i * size) p) =
      ap (λ b. if b then take size (drop (i * size) p) else drop (i * size) p) inner in
    ap₂ (◌++◌) first rest ∙ take-append-drop size (drop (i * size) p)

-- Together the chunks are the packet.
pub chunks-concat :
    (p : List ℕ) (chunks : ℕ) → 0 < chunks → concat_from (chunk_of p chunks) 0 chunks ≡ p
chunks-concat p zero h = absurd (omega arith)
chunks-concat p (suc k) h =
    rest_of_chunks p (suc k) 0 k (omega arith)
    ∙ (let e : 0 * (length p / suc k) ≡ 0 = omega arith in ap (λ n. drop n p) e)

-- The padding is such that a datagram of salt, header, padding and chunk has a size within the
-- configured bounds, unless the chunk alone is too large for them: then there is no padding.
pub random_pad_len-bounds :
    (draw min_pkt max_pkt chunk_len : ℕ)
    → min_pkt ≤ max_pkt
    → max_pkt ≤ 2048
    → let size = 13 + chunk_len + random_pad_len draw min_pkt max_pkt chunk_len in
      ((13 + chunk_len ≤ max_pkt) × (min_pkt ≤ size) × (size ≤ max_pkt))
      ⊎ ((max_pkt < 13 + chunk_len) × (random_pad_len draw min_pkt max_pkt chunk_len ≡ 0))
unfolding random_pad_len
random_pad_len-bounds draw min_pkt max_pkt chunk_len h l =
    let lo = max min_pkt (13 + chunk_len) in
    let small : draw % (max_pkt - lo + 1) < max_pkt - lo + 1 = mod-lt draw (omega arith) in
    ground (arith, small, h, l)
