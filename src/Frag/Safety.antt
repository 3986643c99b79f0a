-- ===== src/Frag/Safety.antt =====
-- `Feed` on any messages at all: it never panics, and its counters stay right.
use hysteria.Common.{
  ℕ, zero, suc, ◌+◌, ◌-◌, ◌%◌, ◌≤◌, ◌<◌, ◌≡◌, refl, sym, ap, ◌∙◌, List, [], ◌∷◌, Option, none, some,
  Option-cases, Bool-cases, inl, inr, false, not, ◌||◌, arith, leb, ◌==◌, length, length-set,
  length-replicate, get_elem?, get_elem?-eq-get_or, set, replicate, min,
}
use hysteria.Common.Bytes.{overlay, copy}
use hysteria.Protocol.Udp.{UdpMessage}
use hysteria.Frag.{Defragger, assemble, feed_slot, feed}

-- The slots that are taken.
abbrev pub filled : List (Option UdpMessage) → ℕ
filled [] = 0
filled (none ∷ frags) = filled frags
filled (some f ∷ frags) = suc (filled frags)

-- `count` says how many slots are taken, and there are at most 255 of them.
pub record IsValid (d : Defragger) : Type 0 where
  pub count_is : d.count ≡ filled d.frags
  pub few : length d.frags ≤ 255

filled-le : (frags : List (Option UdpMessage)) → filled frags ≤ length frags
filled-le [] = omega arith
filled-le (none ∷ frags) = omega (arith, filled-le frags)
filled-le (some f ∷ frags) = omega (arith, filled-le frags)

filled-set :
    (frags : List (Option UdpMessage)) (i : ℕ) (m : UdpMessage)
    → get_elem? frags i ≡ some none
    → filled (set frags i (some m)) ≡ suc (filled frags)
filled-set [] i m e = absurd (cc e)
filled-set (none ∷ frags) zero m e = refl
filled-set (some f ∷ frags) zero m e = absurd (cc e)
filled-set (none ∷ frags) (suc i) m e = filled-set frags i m e
filled-set (some f ∷ frags) (suc i) m e = ap suc (filled-set frags i m e)

-- Putting another message into a slot that is taken.
filled-reset :
    (frags : List (Option UdpMessage)) (i : ℕ) (m : UdpMessage)
    → filled frags ≡ length frags
    → filled (set frags i (some m)) ≡ filled frags
filled-reset [] i m e = refl
filled-reset (none ∷ frags) i m e = absurd (omega (arith, filled-le frags))
filled-reset (some f ∷ frags) zero m e = refl
filled-reset (some f ∷ frags) (suc i) m e = ap suc (filled-reset frags i m (omega arith))

filled-replicate : (n : ℕ) → filled (replicate n none) ≡ 0
filled-replicate zero = refl
filled-replicate (suc n) = filled-replicate n

get_elem?-replicate :
    (n i : ℕ) → i < n → get_elem? (replicate {A = Option UdpMessage} n none) i ≡ some none
get_elem?-replicate zero i h = absurd (omega arith)
get_elem?-replicate (suc n) zero h = refl
get_elem?-replicate (suc n) (suc i) h = get_elem?-replicate n i (omega arith)

length-overlay : (b : List ℕ) (off : ℕ) (src : List ℕ) → length (overlay b off src) ≡ length b
unfolding overlay
length-overlay [] off src = refl
length-overlay (x ∷ b) (suc off) src = ap suc (length-overlay b off src)
length-overlay (x ∷ b) zero [] = refl
length-overlay (x ∷ b) zero (s ∷ src) = ap suc (length-overlay b zero src)

-- A copy that starts inside the buffer ends inside it.
copy_inside :
    (b : List ℕ) (off : ℕ) (src : List ℕ)
    → off ≤ length b
    → (b' : List ℕ) × (k : ℕ) × (copy b off src ≡ some (b', k)) × (off + k ≤ length b')
unfolding copy
copy_inside b off src h = (
  overlay b off src,
  min (length src) (length b - off),
  ground arith,
  omega (arith, length-overlay b off src),
)

assemble_full :
    (frags : List (Option UdpMessage)) (b : List ℕ) (off : ℕ)
    → filled frags ≡ length frags
    → off ≤ length b
    → (b' : List ℕ) × (assemble b off frags ≡ some b')
unfolding assemble
assemble_full [] b off e h = (b, refl)
assemble_full (none ∷ frags) b off e h = absurd (omega (arith, filled-le frags))
assemble_full (some f ∷ frags) b off e h =
    let (b₁, k, q, l) = copy_inside b off f.payload h in
    let (b₂, q') = assemble_full frags b₁ (off + k) (omega arith) l in (b₂, rw (q, q'))

-- What a call of `Feed` may do.
abbrev pub Returns : Option (Defragger × Option UdpMessage) → Type 0
Returns r = (d : Defragger) × (out : Option UdpMessage) × (r ≡ some (d, out)) × IsValid d

-- Storing a message in an empty slot.
feed_slot-Returns :
    (d : Defragger) (m : UdpMessage)
    → IsValid d
    → get_elem? d.frags m.frag_id ≡ some none
    → Returns (feed_slot d m)
unfolding feed_slot
feed_slot-Returns d m v q = elim (Bool-cases ((d.count + 1) % 256 == length slots)) [
  | inl full ↦
      let (b, q') =
        assemble_full slots (replicate (d.size + length m.payload) 0) 0
          (ground (arith, one_more, wide)) (omega arith) in
      rw (full, q')
        (
          _,
          _,
          refl,
          record {
            count_is = ground (
              arith,
              one_more,
              wide,
              filled-reset slots m.frag_id (record m { frag_id = 0; frag_count = 1; payload = b })
                  (ground (arith, one_more, wide)),
            );
            few = omega (
              arith,
              v.few,
              length-set slots m.frag_id
                  (some (record m { frag_id = 0; frag_count = 1; payload = b })),
              same,
            );
          },
        )
  | inr more ↦ rw more (
    _,
    _,
    refl,
    record { count_is = omega (arith, one_more, wide); few = omega (arith, v.few, same) },
  )
]
  where
    slots : List (Option UdpMessage)
    slots = set d.frags m.frag_id (some m)

    same : length slots ≡ length d.frags
    same = length-set d.frags m.frag_id (some m)

    one_more : filled slots ≡ suc d.count
    one_more = filled-set d.frags m.frag_id m q ∙ ap suc (sym v.count_is)

    wide : (d.count + 1) % 256 ≡ suc d.count
    wide = omega (arith, one_more, filled-le slots, same, v.few)

-- From the state that a session starts with, and from every state that follows, `Feed` of any message
-- whose fragment count is a uint8 neither panics nor loses track: `count` remains the number of
-- slots taken, of which there are at most 255.
pub feed-IsValid :
    (d : Defragger) (m : UdpMessage) → IsValid d → m.frag_count < 256 → Returns (feed d m)
feed-IsValid d m v small = elim (Bool-cases (leb m.frag_count 1)) [
  | inl single ↦ (d, some m, unfold feed in rw single, v)
  | inr split ↦ elim (Bool-cases (leb m.frag_count m.frag_id)) [
    | inl bad ↦ (d, none, unfold feed in rw (split, bad), v)
    | inr good ↦
        elim (Bool-cases
          (not (m.packet_id == d.pkt_id) || not (m.frag_count == length d.frags % 256))) [
            | inl other ↦ (start, none, unfold feed in rw (split, good, other), fresh good)
            | inr same ↦ elim (Option-cases (get_elem? d.frags m.frag_id)) [
              | inl out ↦ absurd (inside good same out)
              | inr (none, q) ↦
                  let e : feed d m ≡ feed_slot d m = unfold feed in rw (split, good, same, q) in
                  rw e (feed_slot-Returns d m v q)
              | inr (some f, q) ↦ (d, none, unfold feed in rw (split, good, same, q), v)
            ]
          ]
  ]
]
  where
    start : Defragger
    start = record {
      pkt_id = m.packet_id;
      frags = set (replicate m.frag_count none) m.frag_id (some m);
      count = 1;
      size = length m.payload;
    }

    fresh : leb m.frag_count m.frag_id ≡ false → IsValid start
    fresh good =
        let empty : List (Option UdpMessage) = replicate m.frag_count none in
        let inside : m.frag_id < m.frag_count = ground arith in
        record {
          count_is = sym (
              filled-set empty m.frag_id m (get_elem?-replicate m.frag_count m.frag_id inside)
              ∙ ap suc (filled-replicate m.frag_count));
          few = omega (
            arith,
            length-set empty m.frag_id (some m),
            length-replicate {A = Option UdpMessage} m.frag_count none,
          );
        }

    inside :
        leb m.frag_count m.frag_id ≡ false
        → (not (m.packet_id == d.pkt_id) || not (m.frag_count == length d.frags % 256)) ≡ false
        → get_elem? d.frags m.frag_id ≡ none
        → ⊥
    inside good same out =
        let in_range : m.frag_id < length d.frags = ground (arith, v.few) in
        cc (out, get_elem?-eq-get_or d.frags m.frag_id none in_range)
