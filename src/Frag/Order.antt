-- ===== src/Frag/Order.antt =====
-- Fragments that arrive in any order, each once: the last one completes the message.
use hysteria.Common.{
  ℕ, zero, suc, ◌+◌, ◌-◌, ◌%◌, ◌≤◌, ◌<◌, ◌≡◌, ◌≢◌, ◌⊎◌, ap, ◌∙◌, List, [], ◌∷◌, map, Option, none,
  some, Bool, true, false, arith, ◌==◌, length, length-set, length-replicate, get_or, set,
  replicate, ok,
}
use hysteria.Common.Results.Panics.{◌>>=◌}
use hysteria.Protocol.Varint.{QuicVarint}
use hysteria.Protocol.Udp.{UdpMessage, size, header_size}
use hysteria.Frag.{Defragger, feed, frag_udp_message}
use hysteria.Frag.Split.{fragment, fragments, fragment_count, split_within}
use hysteria.Common.Slots.{Fresh, EachOnce, ones, ones-set, ones-replicate, in_range}
use hysteria.Frag.Reassemble.{whole, Holds, feed_first, feed-arrive}

-- Messages fed one after the other, with the results.
abbrev pub feed_all : Defragger → List UdpMessage → Option (Defragger × List (Option UdpMessage))
feed_all d [] = some (d, [])
feed_all d (f ∷ fs) = do (d', out) ← feed d f; (d'', outs) ← feed_all d' fs; some (d'', out ∷ outs)

-- Nothing comes out before the last of `k + 1` messages.
abbrev pub last_only : ℕ → UdpMessage → List (Option UdpMessage)
last_only zero m = some m ∷ []
last_only (suc k) m = none ∷ last_only k m

module _ (m : UdpMessage) (p n : ℕ) (two : 2 ≤ n) (small : n < 256) where
  feed_more :
      (got : List Bool) (d : Defragger) (i : ℕ)
      → Holds m p n got d
      → length got ≡ n
      → get_or got i true ≡ false
      → ones got + 1 < n
      → (d' : Defragger) × (feed d (fragment m p n i) ≡ some (d', none))
        × Holds m p n (set got i true) d'
  feed_more got d i holds l free h =
      let more : (ones got + 1 == n) ≡ false = ground arith in
      rw (free, more) at
        (feed-arrive m p n two small got d i (omega (arith, in_range got i free)) holds)

  feed_last :
      (got : List Bool) (d : Defragger) (i : ℕ)
      → Holds m p n got d
      → length got ≡ n
      → get_or got i true ≡ false
      → ones got + 1 ≡ n
      → (d' : Defragger) × (feed d (fragment m p n i) ≡ some (d', some (whole m p n)))
  feed_last got d i holds l free h =
      let last : (ones got + 1 == n) ≡ true = ground arith in
      let (d', q, _) =
        (rw (free, last) at
          (feed-arrive m p n two small got d i (omega (arith, in_range got i free)) holds)) in
      (d', q)

  feed_rest :
      (got : List Bool) (d : Defragger) (i : ℕ) (order : List ℕ)
      → Holds m p n got d
      → Fresh got (i ∷ order)
      → ones got + length (i ∷ order) ≡ n
      → length got ≡ n
      → (d' : Defragger) × (feed_all d (map (fragment m p n) (i ∷ order))
          ≡ some (d', last_only (length order) (whole m p n)))
  feed_rest got d i [] holds (free, fresh) count l =
      let (d', q) = feed_last got d i holds l free (omega arith) in (d', rw q)
  feed_rest got d i (j ∷ order) holds (free, fresh) count l =
      let (d', q, h) = feed_more got d i holds l free (omega arith) in
      let (d'', q') =
        feed_rest (set got i true) d' j order h fresh (omega (arith, ones-set got i free))
          (length-set got i true ∙ l) in
      (d'', rw (q, q'))

  -- The fragments of one message, fed in any order to a defragger that holds another one: nothing
  -- comes out before the last, and then the message with the fragments' payloads joined.
  feed_order :
      (d : Defragger) (order : List ℕ)
      → EachOnce n order
      → (m.packet_id ≢ d.pkt_id) ⊎ (n ≢ length d.frags % 256)
      → (d' : Defragger) × (feed_all d (map (fragment m p n) order)
          ≡ some (d', last_only (n - 1) (whole m p n)))
  feed_order d [] (fresh, count) other = absurd (omega arith)
  feed_order d (i ∷ []) (fresh, count) other = absurd (omega arith)
  feed_order d (i ∷ j ∷ order) ((free, fresh), count) other =
      let is_in : i < n =
        omega (arith, in_range (replicate n false) i free, length-replicate n false) in
      let (d', q, h) = feed_first m p n two small d i is_in other in
      let (d'', q') =
        feed_rest (set (replicate n false) i true) d' j order h fresh
          (omega (arith, ones-set (replicate n false) i free, ones-replicate n))
          (length-set (replicate n false) i true ∙ length-replicate n false) in
      let is_n : n - 1 ≡ suc (length order) = omega arith in (d'', rw (q, q', is_n))

-- `FragUDPMessage` cuts a message that does not fit into at most 255 fragments; `Feed` gives it back.
-- Into a defragger that is not at a message of the same packet id and count the fragments may go in
-- any order, each once: nothing comes out before the last one, which brings the message back with
-- all its payload, marked as unfragmented.
pub feed-frag_udp_message :
    (qv : QuicVarint) (m : UdpMessage) (max_size p : ℕ) (d : Defragger) (order : List ℕ)
    → header_size qv m + p ≡ max_size
    → 0 < p
    → max_size < size qv m
    → fragment_count m p ≤ 255
    → EachOnce (fragment_count m p) order
    → (m.packet_id ≢ d.pkt_id) ⊎ (fragment_count m p ≢ length d.frags % 256)
    → (frag_udp_message qv m max_size
        ≡ ok (fragments m p (fragment_count m p) 0 (fragment_count m p)))
      × ((d' : Defragger) × (feed_all d (map (fragment m p (fragment_count m p)) order)
            ≡ some (
              d',
              last_only (fragment_count m p - 1) (record m { frag_id = 0; frag_count = 1 }),
            )))
feed-frag_udp_message qv m max_size p d order room pos large few each other =
    let (split, two, fit, joined) = split_within qv m max_size p room pos large few in
    let (d', q) = feed_order m p (fragment_count m p) two (omega arith) d order each other in
    (
      split,
      (
        d',
        q
            ∙ ap
                (λ l. some (
                  d',
                  last_only (fragment_count m p - 1)
                      (record m { frag_id = 0; frag_count = 1; payload = l }),
                ))
                joined,
      ),
    )
