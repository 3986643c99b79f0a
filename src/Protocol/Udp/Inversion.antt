-- ===== src/Protocol/Udp/Inversion.antt =====
-- `ParseUDPMessage` on any datagram, well formed or not.
use hysteria.Common.{
  ℕ, zero, suc, ◌+◌, ◌-◌, ◌*◌, ◌≤◌, ◌<◌, ◌≡◌, refl, List, [], ◌∷◌, some, arith, length, length-drop,
  length-take, ap, take, take_all, drop, get_elem?, ltb, leb, ◌==◌, ◌||◌,
}
use hysteria.Common.Results.Ensures.{
  Ensures, returns, fails, Ensures-intro, Ensures-if, Ensures-map_err, Ensures-bind, weaken,
}
use hysteria.Common.Bytes.BigEndian.{uint16, uint32}
use hysteria.Protocol.{io, max_message_length}
use hysteria.Protocol.Varint.{QuicVarint, IsRfc9000}
use hysteria.Protocol.Udp.{UdpMessage}
use hysteria.Protocol.Udp.Parse.{slice, fields, parse_udp_message}

get_elem?-some : (msg : List ℕ) (i : ℕ) → i < length msg → (v : ℕ) × (get_elem? msg i ≡ some v)
get_elem?-some [] i h = absurd (omega arith)
get_elem?-some (x ∷ msg) zero h = (x, refl)
get_elem?-some (x ∷ msg) (suc i) h = get_elem?-some msg i (omega arith)

uint16-some : (r : List ℕ) → 2 ≤ length r → (v : ℕ) × (uint16 r ≡ some v)
uint16-some [] h = absurd (omega arith)
uint16-some (a ∷ []) h = absurd (omega arith)
uint16-some (a ∷ b ∷ r) h = (a * 256 + b, refl)

uint32-some : (r : List ℕ) → 4 ≤ length r → (v : ℕ) × (uint32 r ≡ some v)
uint32-some [] h = absurd (omega arith)
uint32-some (a ∷ []) h = absurd (omega arith)
uint32-some (a ∷ b ∷ []) h = absurd (omega arith)
uint32-some (a ∷ b ∷ c ∷ []) h = absurd (omega arith)
uint32-some (a ∷ b ∷ c ∷ d ∷ r) h = (((a * 256 + b) * 256 + c) * 256 + d, refl)

slice-some :
    (msg : List ℕ) (from to : ℕ)
    → from ≤ to
    → to ≤ length msg
    → slice msg from to ≡ some (take (to - from) (drop from msg))
unfolding slice
slice-some msg from to h k = ground arith

-- The address has `l` bytes and stands at `from` in the datagram; the payload is all that follows.
record Parts (msg : List ℕ) (from l : ℕ) (m : UdpMessage) : Type 0 where
  addr_is : m.addr ≡ take l (drop from msg)
  payload_is : m.payload ≡ drop (from + l) msg
  addr_size : length m.addr ≡ l
  payload_size : length m.payload + from + l ≡ length msg

fields-Parts :
    (msg : List ℕ) (from l : ℕ)
    → from + l ≤ length msg
    → (m : UdpMessage) → m.addr ≡ take l (drop from msg)
    → m.payload ≡ drop (from + l) msg
    → Parts msg from l m
fields-Parts msg from l h m ea ep = record {
  addr_is = ea;
  payload_is = ep;
  addr_size = omega (arith, ap length ea, length-take l (drop from msg), length-drop from msg);
  payload_size = omega (arith, ap length ep, length-drop (from + l) msg);
}

fields-Ensures :
    (msg : List ℕ) (from l : ℕ)
    → 8 ≤ from
    → from + l ≤ length msg
    → Ensures (Parts msg from l) (fields msg from (from + l))
unfolding fields
fields-Ensures msg from l lo hi =
    let (a, qa) = uint32-some msg (omega arith) in
    let (b, qb) = uint16-some (drop 4 msg) (omega (arith, length-drop 4 msg)) in
    let (c, qc) = get_elem?-some msg 6 (omega arith) in
    let (d, qd) = get_elem?-some msg 7 (omega arith) in
    let qe = slice-some msg from (from + l) (omega arith) hi in
    let qf = slice-some msg (from + l) (length msg) hi (omega arith) in
    rw (qa, qb, qc, qd, qe, qf)
      (returns _ (
        fields-Parts msg from l hi _ (ap (λ n. take n (drop from msg)) (omega arith))
          (take_all _ _ (omega (arith, length-drop (from + l) msg)))))

-- On any datagram `ParseUDPMessage` returns an error or a message: it never panics. The address of a
-- message has 1 to 2048 bytes and its payload is not empty; the two are the end of the datagram,
-- one behind the other, behind the 8 bytes of the fixed header.
pub parse_udp_message-Ensures :
    {qv : QuicVarint}
    → IsRfc9000 qv
    → (msg : List ℕ)
    → Ensures
        (λ m.
          (0 < length m.addr)
          × (length m.addr ≤ max_message_length)
          × (0 < length m.payload)
          × ((from : ℕ) × (8 ≤ from)
              × (m.addr ≡ take (length m.addr) (drop from msg))
              × (m.payload ≡ drop (from + length m.addr) msg)
              × (from + length m.addr + length m.payload ≡ length msg)))
        (parse_udp_message qv msg)
unfolding parse_udp_message
parse_udp_message-Ensures {qv} rfc msg =
    Ensures-if (ltb (length msg) 8)
      (λ _. Ensures-if (length msg == 0) (λ _. fails _) (λ _. fails _))
      λ long.
        Ensures-bind _ (Ensures-map_err io (Ensures-intro _ (rfc.parse_total _) (λ a e. e)))
          λ (l, n) e.
            Ensures-if (l == 0 || ltb max_message_length l) (λ _. fails _)
              λ ranged.
                Ensures-if (leb (length msg) (8 + n + l)) (λ _. fails _)
                  λ longer.
                    weaken (fields-Ensures msg (8 + n) l (omega arith) (ground arith)) λ m f. (
                      ground (arith, f.addr_size),
                      ground (arith, f.addr_size),
                      ground (arith, f.payload_size),
                      (
                        8 + n,
                        omega arith,
                        rw f.addr_size f.addr_is,
                        rw f.addr_size f.payload_is,
                        omega (arith, f.addr_size, f.payload_size),
                      ),
                    )
