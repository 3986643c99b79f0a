-- ===== src/Client/Receiving.antt =====
-- `Receive` on the fragments of one message.
use hysteria.Common.{
  ℕ, zero, suc, ◌+◌, ◌-◌, ◌%◌, ◌≤◌, ◌<◌, ◌≡◌, ◌≢◌, ◌⊎◌, refl, ◌∙◌, ap, List, [], ◌∷◌, ◌++◌, map,
  Option, none, some, length, arith,
}
use hysteria.Common.Results.Panics.{◌>>=◌}
use hysteria.Protocol.Varint.{QuicVarint}
use hysteria.Protocol.Udp.{UdpMessage, size, header_size}
use hysteria.Frag.{Defragger, feed}
use hysteria.Frag.Split.{fragment, fragment_count}
use hysteria.Common.Slots.{EachOnce}
use hysteria.Frag.Order.{feed_all, last_only, feed-frag_udp_message}
use hysteria.Client.{UdpConn, receive_loop, receive, data_from}

last_only-cons : (k : ℕ) (m : UdpMessage) → last_only k m ≡ [] → ⊥
last_only-cons zero m e = absurd (ground (arith, e))
last_only-cons (suc k) m e = absurd (ground (arith, e))

-- A run of `Feed`, from the results on.
abbrev with_result :
    Option UdpMessage
    → Defragger × List (Option UdpMessage)
    → Option (Defragger × List (Option UdpMessage))
with_result out (d, outs) = some (d, out ∷ outs)

abbrev with_fed :
    List UdpMessage → Defragger × Option UdpMessage → Option (Defragger × List (Option UdpMessage))
with_fed fs (d, out) = feed_all d fs >>= with_result out

-- What a run of `Feed` says of each of its messages.
feed_all-cons :
    (d d' : Defragger) (f : UdpMessage) (fs : List UdpMessage) (out : Option UdpMessage)
    (outs : List (Option UdpMessage))
    → feed_all d (f ∷ fs) ≡ some (d', out ∷ outs)
    → (d1 : Defragger) × (feed d f ≡ some (d1, out)) × (feed_all d1 fs ≡ some (d', outs))
feed_all-cons d d' f fs out outs e = go (feed d f) refl e
  where
    after :
        (d1 : Defragger) (out' : Option UdpMessage)
        (rest : Option (Defragger × List (Option UdpMessage)))
        → feed d f ≡ some (d1, out')
        → feed_all d1 fs ≡ rest
        → (rest >>= with_result out') ≡ some (d', out ∷ outs)
        → (d1 : Defragger) × (feed d f ≡ some (d1, out)) × (feed_all d1 fs ≡ some (d', outs))
    after d1 out' none q r e = absurd (ground (arith, e))
    after d1 out' (some (d2, outs')) q r e =
        let a : out' ≡ out = cc e in
        let b : outs' ≡ outs = cc e in
        let c : d2 ≡ d' = cc e in (d1, q ∙ ap (λ x. some (d1, x)) a, r ∙ cc (b, c))

    go :
        (fed : Option (Defragger × Option UdpMessage))
        → feed d f ≡ fed
        → (fed >>= with_fed fs) ≡ some (d', out ∷ outs)
        → (d1 : Defragger) × (feed d f ≡ some (d1, out)) × (feed_all d1 fs ≡ some (d', outs))
    go none q e = absurd (ground (arith, e))
    go (some (d1, out')) q e = after d1 out' (feed_all d1 fs) q refl e

-- Every message has a result.
with_fed-nil :
    (fed : Option (Defragger × Option UdpMessage)) (gs : List UdpMessage) (d : Defragger)
    → (fed >>= with_fed gs) ≡ some (d, [])
    → ⊥
with_fed-nil none gs d e = absurd (ground (arith, e))
with_fed-nil (some (d2, out)) gs d e = go (feed_all d2 gs) e
  where
    go :
        (rest : Option (Defragger × List (Option UdpMessage)))
        → (rest >>= with_result out) ≡ some (d, [])
        → ⊥
    go none e = absurd (ground (arith, e))
    go (some (d3, outs)) e = let q : (out ∷ outs) ≡ [] = cc e in absurd (ground (arith, q))

receive_loop-last :
    (d d' : Defragger) (fs later : List UdpMessage) (k : ℕ) (m : UdpMessage)
    → feed_all d fs ≡ some (d', last_only k m)
    → receive_loop d (fs ++ later) ≡ some (d', later, some m)
unfolding receive_loop
receive_loop-last d d' [] later k m e =
    let nothing : last_only k m ≡ [] = cc e in absurd (last_only-cons k m nothing)
receive_loop-last d d' (f ∷ fs) later zero m e =
    let (d1, q, r) = feed_all-cons d d' f fs (some m) [] e in
    let (a, b) = finished d1 d' fs r in rw (q, a, b) refl
  where
    finished :
        (d1 d' : Defragger) (fs : List UdpMessage)
        → feed_all d1 fs ≡ some (d', [])
        → (d1 ≡ d') × (fs ≡ [])
    finished d1 d' [] r = (cc r, refl)
    finished d1 d' (g ∷ gs) r = absurd (with_fed-nil (feed d1 g) gs d' r)
receive_loop-last d d' (f ∷ fs) later (suc k) m e =
    let (d1, q, r) = feed_all-cons d d' f fs none (last_only k m) e in
    rw q (receive_loop-last d1 d' fs later k m r)

-- The fragments of a message, in any order at the head of the channel: `Receive` returns the payload and
-- the address, and leaves in the channel what comes behind them. The defragger is not at a message of
-- the same packet id and count, and at most 255 fragments are needed.
pub receive-frag_udp_message :
    (qv : QuicVarint) (m : UdpMessage) (max_size p : ℕ) (c : UdpConn) (order : List ℕ)
    (later : List UdpMessage)
    → header_size qv m + p ≡ max_size
    → 0 < p
    → max_size < size qv m
    → fragment_count m p ≤ 255
    → EachOnce (fragment_count m p) order
    → (m.packet_id ≢ c.d.pkt_id) ⊎ (fragment_count m p ≢ length c.d.frags % 256)
    → c.queue ≡ map (fragment m p (fragment_count m p)) order ++ later
    → (c' : UdpConn) × (receive c ≡ some (c', data_from m.payload m.addr)) × (c'.queue ≡ later)
unfolding receive
receive-frag_udp_message qv m max_size p c order later room pos large few each other q =
    let (split, (d', e)) =
      feed-frag_udp_message qv m max_size p c.d order room pos large few each other in
    let all =
      receive_loop-last c.d d' (map (fragment m p (fragment_count m p)) order) later
        (fragment_count m p - 1) (record m { frag_id = 0; frag_count = 1 }) e in
    (record c { d = d'; queue = later }, rw (q, all) refl, refl)
