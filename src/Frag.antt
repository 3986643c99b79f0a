-- ===== src/Frag.antt =====
-- core/internal/frag/frag.go: the fragmentation of UDP messages and their reassembly.
pub mod Split
pub mod Slots
pub mod Reassemble
pub mod Order
pub mod Safety
pub mod Runs
use hysteria.Common.{
  ℕ, zero, suc, ◌+◌, ◌-◌, ◌/◌, ◌%◌, List, [], ◌∷◌, Option, none, some, Bool, not, ltb, leb, ◌==◌,
  ◌||◌, min, if◌then◌else◌, length, take, drop, set, get_elem?, replicate, Result, ok, err, panic,
}
use hysteria.Common.Results.Panics.{◌>>=◌}
use hysteria.Common.Bytes.{copy}
use hysteria.Protocol.Varint.{QuicVarint}
use hysteria.Protocol.Udp.{UdpMessage, size, header_size}

-- The loop of `FragUDPMessage` ran out of fuel, which stands for no outcome of the code.
pub data OutOfFuel : Type 0 where
  out_of_fuel : OutOfFuel

-- The zero value of a message, with which `make` fills the slice.
abbrev pub zero_message : UdpMessage
zero_message = record {
  session_id = 0;
  packet_id = 0;
  frag_id = 0;
  frag_count = 0;
  addr = [];
  payload = [];
}

-- The loop `for off < len(fullPayload)`, where `payload_max` is `maxPayloadSize`. The fragment id is
-- a uint8; a write behind the end of `frags` is a panic.
unfoldable pub frag_loop :
    ℕ → UdpMessage → ℕ → ℕ → ℕ → ℕ → List UdpMessage → Result OutOfFuel (List UdpMessage)
frag_loop zero m payload_max frag_count off frag_id frags = err out_of_fuel
frag_loop (suc fuel) m payload_max frag_count off frag_id frags =
    let payload_size = min (length m.payload - off) payload_max in
    let frag : UdpMessage = record m {
      frag_id = frag_id;
      frag_count = frag_count;
      payload = take payload_size (drop off m.payload);
    } in
    let rest =
      frag_loop fuel m payload_max frag_count (off + payload_size) ((frag_id + 1) % 256)
        (set frags frag_id frag) in
    if ltb off (length m.payload)
    then if ltb frag_id (length frags) then rest else panic
    else ok frags

-- `nil` is the empty list. Every round takes a byte at least, so the fuel is enough.
unfoldable pub frag_udp_message : QuicVarint → UdpMessage → ℕ → Result OutOfFuel (List UdpMessage)
unfolding size
frag_udp_message qv m max_size =
    if leb (size qv m) max_size
    then ok (m ∷ [])
    else if leb max_size (header_size qv m)
    then ok []
    else let payload_max = max_size - header_size qv m in
      let frag_count = (length m.payload + payload_max - 1) / payload_max % 256 in
      frag_loop (suc (length m.payload)) m payload_max frag_count 0 0
        (replicate frag_count zero_message)

-- A slot of `frags` is a pointer to a message, or nil.
pub record Defragger : Type 0 where
  pub pkt_id : ℕ
  pub frags : List (Option UdpMessage)
  pub count : ℕ
  pub size : ℕ

abbrev pub new_defragger : Defragger
new_defragger = record { pkt_id = 0; frags = []; count = 0; size = 0 }

-- The loop `for _, frag := range d.frags` over the buffer `data`.
unfoldable pub assemble : List ℕ → ℕ → List (Option UdpMessage) → Option (List ℕ)
assemble data' off [] = some data'
assemble data' off (none ∷ frags) = none
assemble data' off (some frag ∷ frags) = do
  (data'', n) ← copy data' off frag.payload
  assemble data'' (off + n) frags

-- The branch of `Feed` that puts `m` into its empty slot. The message that it returns is the one
-- whose pointer it has put into the slot, so the slot holds the assembled message too.
unfoldable pub feed_slot : Defragger → UdpMessage → Option (Defragger × Option UdpMessage)
unfolding assemble
feed_slot d m =
    let frags' = set d.frags m.frag_id (some m) in
    let count' = (d.count + 1) % 256 in
    let size' = d.size + length m.payload in
    let stored : Defragger = record d { frags = frags'; count = count'; size = size' } in
    let whole : Option (Defragger × Option UdpMessage) = (do
      data' ← assemble (replicate size' 0) 0 frags'
      let m' : UdpMessage = record m { frag_id = 0; frag_count = 1; payload = data' }
      some (record stored { frags = set frags' m.frag_id (some m') }, some m')) in
    if count' == length frags' then whole else some (stored, none)

-- `none` on the outside is a panic.
unfoldable pub feed : Defragger → UdpMessage → Option (Defragger × Option UdpMessage)
unfolding feed_slot
feed d m =
    if leb m.frag_count 1
    then some (d, some m)
    else if leb m.frag_count m.frag_id
    then some (d, none)
    else if not (m.packet_id == d.pkt_id) || not (m.frag_count == length d.frags % 256)
    then some (
      record {
        pkt_id = m.packet_id;
        frags = set (replicate m.frag_count none) m.frag_id (some m);
        count = 1;
        size = length m.payload;
      },
      none,
    )
    else (get_elem? d.frags m.frag_id >>= λ slot. elim slot [
      | none ↦ feed_slot d m
      | some _ ↦ some (d, none)
    ])
