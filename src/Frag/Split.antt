-- ===== src/Frag/Split.antt =====
-- What `FragUDPMessage` returns: the pieces of the payload in order, each of which fits.
use hysteria.Common.{
  ◌⊎◌, inl, inr, Bool-cases, ℕ, zero, suc, ◌+◌, ◌-◌, ◌*◌, ◌/◌, ◌%◌, ◌≤◌, ◌<◌, ◌≡◌, refl, sym, ap,
  ◌∙◌, List, [], ◌∷◌, ◌++◌, arith, leb, min, length, length-append, length-take, length-drop, take,
  drop, drop_all, drop-drop, take-append-drop, set, replicate, append_assoc, take_min, set-append,
  All, ok, panic, lt→ltb,
}
use native.Mathlib.Nat.{div-add-mod, mod-lt, mod-eq_of_lt, mul-le-mul_left, mul-le-mul_right}
use native.Mathlib.Decide.{dec_le}
use hysteria.Protocol.Varint.{QuicVarint}
use hysteria.Protocol.Udp.{UdpMessage, size, header_size}
use hysteria.Frag.{zero_message, frag_loop, frag_udp_message}

-- The i-th of `n` fragments of at most `payload_max` bytes.
abbrev pub fragment : UdpMessage → ℕ → ℕ → ℕ → UdpMessage
fragment m payload_max n i = record m {
  frag_id = i;
  frag_count = n;
  payload = take payload_max (drop (i * payload_max) m.payload);
}

-- `k` members of a family of fragments, from the i-th on.
abbrev pub all_fragments : (ℕ → UdpMessage) → ℕ → ℕ → List UdpMessage
all_fragments frag i zero = []
all_fragments frag i (suc k) = frag i ∷ all_fragments frag (i + 1) k

-- `k` fragments of `m` from the i-th on.
abbrev pub fragments : UdpMessage → ℕ → ℕ → ℕ → ℕ → List UdpMessage
fragments m payload_max n i k = all_fragments (fragment m payload_max n) i k

-- The payloads of a list of messages, one behind the other.
abbrev pub payloads : List UdpMessage → List ℕ
payloads [] = []
payloads (f ∷ fs) = f.payload ++ payloads fs

-- ⌈len / payload_max⌉
abbrev pub fragment_count : UdpMessage → ℕ → ℕ
fragment_count m payload_max = (length m.payload + payload_max - 1) / payload_max

-- One round of the loop.
frag_loop_round :
    (m : UdpMessage) (p n fuel off frag_id : ℕ) (frags : List UdpMessage)
    → off < length m.payload
    → frag_id < length frags
    → frag_loop (suc fuel) m p n off frag_id frags
      ≡ frag_loop fuel m p n (off + min (length m.payload - off) p) ((frag_id + 1) % 256) (
          set frags frag_id (record m {
            frag_id = frag_id;
            frag_count = n;
            payload = take (min (length m.payload - off) p) (drop off m.payload);
          }))
unfolding frag_loop
frag_loop_round m p n fuel off frag_id frags h k = rw (lt→ltb _ _ h, lt→ltb _ _ k)

frag_loop_end :
    (m : UdpMessage) (p n fuel off frag_id : ℕ) (frags : List UdpMessage)
    → length m.payload ≤ off
    → frag_loop (suc fuel) m p n off frag_id frags ≡ ok frags
unfolding frag_loop
frag_loop_end m p n fuel off frag_id frags h = ground arith

frag_loop_full :
    (m : UdpMessage) (p n fuel off frag_id : ℕ) (frags : List UdpMessage)
    → off < length m.payload
    → length frags ≤ frag_id
    → frag_loop (suc fuel) m p n off frag_id frags ≡ panic
unfolding frag_loop
frag_loop_full m p n fuel off frag_id frags h k = ground arith

module _ (m : UdpMessage) (p n : ℕ) where
  piece :
      (i : ℕ)
      → take (min (length m.payload - i * p) p) (drop (i * p) m.payload)
        ≡ take p (drop (i * p) m.payload)
  piece i = rw (← length-drop (i * p) m.payload) (take_min p (drop (i * p) m.payload))

  -- A round that writes the i-th fragment behind those in front.
  frag_loop_write :
      (fuel i off : ℕ) (front back : List UdpMessage) (x : UdpMessage)
      → i ≡ length front
      → i < 255
      → i * p < length m.payload
      → off ≡ i * p
      → frag_loop (suc fuel) m p n off i (front ++ (x ∷ back))
        ≡ frag_loop fuel m p n
            (min ((i + 1) * p) (length m.payload))
            (i + 1)
            ((front ++ (fragment m p n i ∷ [])) ++ back)
  frag_loop_write fuel i off front back x e small h q = rw (
    q,
    frag_loop_round m p n fuel (i * p) i (front ++ (x ∷ back)) h
        (omega (arith, length-append front (x ∷ back))),
    piece i,
    set-append front back i (fragment m p n i) x e,
    append_assoc front (fragment m p n i ∷ []) back,
    next_off,
    next_id,
  )
    where
      next_off : i * p + min (length m.payload - i * p) p ≡ min ((i + 1) * p) (length m.payload)
      next_off = omega arith

      next_id : (i + 1) % 256 ≡ i + 1
      next_id = omega arith

  module _ (upper : length m.payload ≤ n * p)
      (lower : (i : ℕ) → i < n → i * p < length m.payload) where
    -- The loop in its i-th round, with the first fragments in front of the slots that are still zero.
    frag_loop-fragments :
        (fuel i k off : ℕ) (front : List UdpMessage)
        → i + k ≡ n
        → n < 256
        → i ≡ length front
        → k < fuel
        → off ≡ min (i * p) (length m.payload)
        → frag_loop fuel m p n off i (front ++ replicate k zero_message)
          ≡ ok (front ++ fragments m p n i k)
    frag_loop-fragments zero i k off front e small h hf q = absurd (omega arith)
    frag_loop-fragments (suc fuel) i zero off front e small h hf q =
        let is_n : i ≡ n = omega arith in
        let at_end : off ≡ length m.payload = omega (arith, ap (λ (t : ℕ). t * p) is_n) in
        frag_loop_end m p n fuel off i (front ++ []) (omega arith)
    frag_loop-fragments (suc fuel) i (suc k) off front e small h hf q =
        frag_loop_write fuel i off front (replicate k zero_message) zero_message h (omega arith)
          (lower i (omega arith)) (omega (arith, lower i (omega arith)))
        ∙ frag_loop-fragments fuel (i + 1) k _ (front ++ (fragment m p n i ∷ [])) (omega arith)
            small (omega (arith, length-append front (fragment m p n i ∷ []))) (omega arith) refl
        ∙ ap ok (append_assoc front (fragment m p n i ∷ []) (fragments m p n (i + 1) k))

-- Facts about the count: ⌈len / p⌉ pieces of `p` bytes are enough, and fewer are not.
module _ (len p : ℕ) (pos : 0 < p) where
  count_upper : len ≤ (len + p - 1) / p * p
  count_upper = omega (arith, div-add-mod (len + p - 1) p, mod-lt (len + p - 1) pos)

  pub count_lower : (i : ℕ) → i < (len + p - 1) / p → i * p < len
  count_lower i h =
      omega (arith, div-add-mod (len + p - 1) p, mod-lt (len + p - 1) pos, mul-le-mul_right p h)

payloads-fragments :
    (m : UdpMessage) (p n i k : ℕ)
    → length m.payload ≤ (i + k) * p
    → payloads (fragments m p n i k) ≡ drop (i * p) m.payload
payloads-fragments m p n i zero h = sym (drop_all (i * p) m.payload (omega arith))
payloads-fragments m p n i (suc k) h =
    ap (λ l. take p (drop (i * p) m.payload) ++ l)
      (payloads-fragments m p n (i + 1) k (omega arith) ∙ shift)
    ∙ take-append-drop p (drop (i * p) m.payload)
  where
    shift : drop ((i + 1) * p) m.payload ≡ drop p (drop (i * p) m.payload)
    shift =
        let e : (i + 1) * p ≡ i * p + p = omega arith in
        ap (λ k. drop k m.payload) e ∙ sym (drop-drop p (i * p) m.payload)

fragments-fit :
    (qv : QuicVarint) (m : UdpMessage) (p n i k : ℕ)
    → All (λ f. size qv f ≤ header_size qv m + p) (fragments m p n i k)
unfolding size header_size
fragments-fit qv m p n i zero = tt
fragments-fit qv m p n i (suc k) =
    (omega (arith, length-take p (drop (i * p) m.payload)), fragments-fit qv m p n (i + 1) k)

-- With fewer slots than pieces the loop runs into the end of the slots.
frag_loop-panic :
    (m : UdpMessage) (p c fuel i k off : ℕ) (front : List UdpMessage)
    → ((j : ℕ) → j ≤ c → j * p < length m.payload)
    → i + k ≡ c
    → c < 256
    → i ≡ length front
    → k < fuel
    → off ≡ i * p
    → frag_loop fuel m p c off i (front ++ replicate k zero_message) ≡ panic
frag_loop-panic m p c zero i k off front low e small h hf q = absurd (omega arith)
frag_loop-panic m p c (suc fuel) i zero off front low e small h hf q =
    frag_loop_full m p c fuel off i (front ++ []) (omega (arith, low i (omega arith)))
      (omega (arith, length-append front []))
frag_loop-panic m p c (suc fuel) i (suc k) off front low e small h hf q =
    frag_loop_write m p c fuel i off front (replicate k zero_message) zero_message h (omega arith)
      (low i (omega arith)) q
    ∙ frag_loop-panic m p c fuel (i + 1) k _ (front ++ (fragment m p c i ∷ [])) low (omega arith)
        small (omega (arith, length-append front (fragment m p c i ∷ []))) (omega arith)
        (omega (arith, low (i + 1) (omega arith)))

module _ (len p : ℕ) (pos : 0 < p) where
  count_le : (len + p - 1) / p ≤ len
  count_le = elim (dec_le ((len + p - 1) / p) len) [
    | yes h ↦ h
    | no h ↦
        absurd (omega (arith, count_lower len p pos len (omega arith), mul-le-mul_left len pos))
  ]

  count_many : p < len → 2 ≤ (len + p - 1) / p
  count_many long = elim (dec_le 2 ((len + p - 1) / p)) [
    | yes h ↦ h
    | no h ↦
        let few : (len + p - 1) / p ≤ 1 = omega arith in
        absurd (omega (arith, count_upper len p pos, mul-le-mul_right p few))
  ]

-- A message that does not fit, whose header leaves `p` bytes for a piece.
module _ (qv : QuicVarint) (m : UdpMessage) (max_size p : ℕ)
    (room : header_size qv m + p ≡ max_size) (pos : 0 < p) (large : max_size < size qv m) where
  start :
      frag_udp_message qv m max_size
      ≡ frag_loop
          (suc (length m.payload))
          m
          p
          (fragment_count m p % 256)
          0
          0
          (replicate (fragment_count m p % 256) zero_message)
  unfolding frag_udp_message
  start = let is_p : max_size - header_size qv m ≡ p = omega arith in rw (← is_p) (ground arith)

  longer : p < length m.payload
  unfolding size
  longer = omega arith

  split_ok :
      fragment_count m p ≤ 255
      → frag_udp_message qv m max_size
        ≡ ok (fragments m p (fragment_count m p) 0 (fragment_count m p))
  split_ok h =
      start
      ∙ rw (mod-eq_of_lt {n = fragment_count m p} {m = 256} (omega arith)) (
          frag_loop-fragments m p (fragment_count m p) (count_upper _ p pos) (count_lower _ p pos) _
            0 (fragment_count m p) 0 [] (omega arith) (omega arith) refl
            (omega (arith, count_le (length m.payload) p pos)) (omega arith))

  split_panic : 255 < fragment_count m p → frag_udp_message qv m max_size ≡ panic
  split_panic h =
      start
      ∙ frag_loop-panic m p (fragment_count m p % 256) _ 0 (fragment_count m p % 256) 0 []
          (λ j k.
            count_lower _ p pos j
              (omega (arith, mod-lt (fragment_count m p) {m = 256} (omega arith))))
          (omega arith) (omega arith) refl (omega (arith, count_le (length m.payload) p pos))
          (omega arith)

pub split_within :
    (qv : QuicVarint) (m : UdpMessage) (max_size p : ℕ)
    → header_size qv m + p ≡ max_size
    → 0 < p
    → max_size < size qv m
    → fragment_count m p ≤ 255
    → (frag_udp_message qv m max_size
        ≡ ok (fragments m p (fragment_count m p) 0 (fragment_count m p)))
      × (2 ≤ fragment_count m p)
      × All (λ f. size qv f ≤ max_size) (fragments m p (fragment_count m p) 0 (fragment_count m p))
      × (payloads (fragments m p (fragment_count m p) 0 (fragment_count m p)) ≡ m.payload)
split_within qv m max_size p room pos large few = (
  split_ok qv m max_size p room pos large few,
  count_many (length m.payload) p pos (longer qv m max_size p room pos large),
  rw (← room) (fragments-fit qv m p _ 0 _),
  payloads-fragments m p _ 0 _ (omega (arith, count_upper (length m.payload) p pos)) ∙ all_of_it,
)
  where
    all_of_it : drop (0 * p) m.payload ≡ m.payload
    all_of_it = let e : 0 * p ≡ 0 = omega arith in rw e

-- A message that does not fit into `max_size` bytes, and whose header leaves room for `p` bytes more,
-- is cut into ⌈len / p⌉ fragments, at least two, if that is at most 255: each fits into `max_size`
-- bytes, their ids count up from 0, and their payloads in order are the message's. With more than
-- 255 pieces the function panics.
pub frag_udp_message_split :
    (qv : QuicVarint) (m : UdpMessage) (max_size p : ℕ)
    → header_size qv m + p ≡ max_size
    → 0 < p
    → max_size < size qv m
    → ((fragment_count m p ≤ 255)
        × (frag_udp_message qv m max_size
            ≡ ok (fragments m p (fragment_count m p) 0 (fragment_count m p)))
        × (2 ≤ fragment_count m p)
        × All
            (λ f. size qv f ≤ max_size)
            (fragments m p (fragment_count m p) 0 (fragment_count m p))
        × (payloads (fragments m p (fragment_count m p) 0 (fragment_count m p)) ≡ m.payload))
      ⊎ ((255 < fragment_count m p) × (frag_udp_message qv m max_size ≡ panic))
frag_udp_message_split qv m max_size p room pos large =
    elim (Bool-cases (leb (fragment_count m p) 255)) [
      | inl h ↦
          (let few : fragment_count m p ≤ 255 = ground (arith, h) in
            let (a, b, c, d) = split_within qv m max_size p room pos large few in
            inl (few, a, b, c, d))
      | inr h ↦
          (let many : 255 < fragment_count m p = ground (arith, h) in
            inr (many, split_panic qv m max_size p room pos large many))
    ]
