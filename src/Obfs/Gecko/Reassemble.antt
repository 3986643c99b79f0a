-- ===== src/Obfs/Gecko/Reassemble.antt =====
-- The chunks of one packet, accepted in any order, each once.
use hysteria.Common.{
  All, Bool-cases, inl, inr, ℕ, zero, suc, ◌+◌, ◌-◌, ◌≤◌, ◌<◌, ◌≡◌, refl, sym, ◌∙◌, ap, ap₂, List,
  [], ◌∷◌, ◌++◌, Option, none, some, Bool, true, false, ltb, leb, ◌==◌, length, set, get_elem?,
  get_or, replicate, arith, length-set, length-replicate,
}
use hysteria.Common.Slots.{
  ones, ones-le-length, ones-set, ones-replicate, slots, slots-empty, slots-set, slot_empty, Fresh,
  EachOnce,
}
use hysteria.Obfs.GeckoFrame.{FrameHeader}
use hysteria.Obfs.Gecko.{
  ReassemblyEntry, GeckoConn, has_key, find, replace, join, with_chunk, drop_entry, store_chunk,
  new_entry, with_room, with_entry, accept_chunk, gecko_max_per_source, gecko_max_reassembly,
  gecko_reassembly_ttl,
}
use hysteria.Obfs.Gecko.Table.{find-replace_self, replace-All}
use hysteria.Obfs.Gecko.Collect.{Spares, gc_all, gc_all-keeps, find-Spares, evict_oldest-Spares}
use hysteria.Obfs.Gecko.Cutting.{chunk_of, concat_from, chunks-concat}

-- With all pieces there, they are joined in their order.
join-slots :
    (piece : ℕ → List ℕ) (got : List Bool) (j : ℕ)
    → ones got ≡ length got
    → join (slots piece got j) ≡ concat_from piece j (length got)
join-slots piece [] j e = refl
join-slots piece (false ∷ got) j e = absurd (omega (arith, ones-le-length got))
join-slots piece (true ∷ got) j e =
    ap (λ l. piece j ++ l) (join-slots piece got (j + 1) (omega arith))

-- The header of chunk `i` of `n`, with some padding.
abbrev pub header_of : ℕ → ℕ → (ℕ → ℕ) → ℕ → FrameHeader
header_of id n pads i = record { pad_len = pads i; msg_id = id; chunk_idx = i; total_chunks = n }

module _ (addr id n : ℕ) (p : List ℕ) (now pads : ℕ → ℕ) (collections : ℕ → List ℕ) where
  -- Chunk `i` comes in at the time `now i`, and expired entries are collected at some times behind it.
  abbrev pub accept_all : GeckoConn → List ℕ → GeckoConn × List (Option (List ℕ))
  accept_all g [] = (g, [])
  accept_all g (i ∷ order) =
      let (g', out) = accept_chunk (now i) g addr (header_of id n pads i) (chunk_of p n i) in
      let (g'', outs) = accept_all (gc_all (collections i) g') order in (g'', out ∷ outs)

  -- Nothing before the last of `k + 1` chunks.
  abbrev pub packet_last : ℕ → List (Option (List ℕ))
  packet_last zero = some p ∷ []
  packet_last (suc k) = none ∷ packet_last k

  -- The entry that has the chunks of `got`.
  record Holds (got : List Bool) (deadline : ℕ) (e : ReassemblyEntry) : Type 0 where
    has_deadline : e.deadline ≡ deadline
    has_addr : e.addr ≡ addr
    has_id : e.msg_id ≡ id
    has_chunks : e.chunks ≡ slots (chunk_of p n) got 0
    has_count : e.received ≡ ones got
    has_total : e.total ≡ n

  module _ (got : List Bool) (deadline : ℕ) (size : length got ≡ n) (i : ℕ)
      (free : get_or got i true ≡ false) where
    empty_slot : (e : ReassemblyEntry) → Holds got deadline e → get_elem? e.chunks i ≡ some none
    empty_slot e h = ap (λ cs. get_elem? cs i) h.has_chunks ∙ slot_empty (chunk_of p n) got i 0 free

    new_slots :
        (e : ReassemblyEntry)
        → Holds got deadline e
        → set e.chunks i (some (chunk_of p n i)) ≡ slots (chunk_of p n) (set got i true) 0
    new_slots e h =
        ap (λ cs. set cs i (some (chunk_of p n i))) h.has_chunks
        ∙ slots-set (chunk_of p n) got i 0 i (omega arith)

    store-more :
        (g : GeckoConn) (e : ReassemblyEntry)
        → Holds got deadline e
        → find addr id g.reassembly ≡ some e
        → All (Spares addr id deadline) g.reassembly
        → ones got + 1 < n
        → (g' : GeckoConn) × (e' : ReassemblyEntry) × (store_chunk g e
              (header_of id n pads i)
              (chunk_of p n i)
            ≡ (g', none))
          × Holds (set got i true) deadline e'
          × (find addr id g'.reassembly ≡ some e')
          × All (Spares addr id deadline) g'.reassembly
    unfolding store_chunk
    store-more g e h at own l =
        let e' = with_chunk e i (chunk_of p n i) in
        let more : ltb (e.received + 1) e.total ≡ true =
          ground (arith, h.has_count, h.has_total, l) in
        let found : find e'.addr e'.msg_id g.reassembly ≡ some e =
          ap₂ (λ x y. find x y g.reassembly) h.has_addr h.has_id ∙ at in
        let again = find-replace_self e' g.reassembly e found in
        (
          record g { reassembly = replace e' g.reassembly },
          e',
          rw (empty_slot e h, store_chunk, more) refl,
          record {
            has_deadline = h.has_deadline;
            has_addr = h.has_addr;
            has_id = h.has_id;
            has_chunks = new_slots e h;
            has_count = omega (arith, h.has_count, ones-set got i free);
            has_total = h.has_total;
          },
          sym (ap₂ (λ x y. find x y (replace e' g.reassembly)) h.has_addr h.has_id) ∙ again,
          replace-All (Spares addr id deadline) e' g.reassembly (inr h.has_deadline) own,
        )

    store-last :
        (g : GeckoConn) (e : ReassemblyEntry)
        → Holds got deadline e
        → ones got + 1 ≡ n
        → (g' : GeckoConn) × (store_chunk g e (header_of id n pads i) (chunk_of p n i)
            ≡ (g', some p))
    unfolding store_chunk
    store-last g e h l =
        let e' = with_chunk e i (chunk_of p n i) in
        let last : ltb (e.received + 1) e.total ≡ false =
          ground (arith, h.has_count, h.has_total, l) in
        let full : ones (set got i true) ≡ length (set got i true) =
          omega (arith, ones-set got i free, length-set got i true, size, l) in
        let count : length (set got i true) ≡ n = length-set got i true ∙ size in
        let joined : join e'.chunks ≡ p =
          ap join (new_slots e h)
          ∙ join-slots (chunk_of p n) (set got i true) 0 full
          ∙ ap (concat_from (chunk_of p n) 0) count
          ∙ chunks-concat p n (omega (arith, l)) in
        (
          drop_entry (record g { reassembly = replace e' g.reassembly }) e.addr e.msg_id,
          rw (empty_slot e h, store_chunk, last, joined) refl,
        )

  -- A chunk for an entry that is there.
  accept-found :
      (g : GeckoConn) (e : ReassemblyEntry) (i : ℕ)
      → e.total ≡ n
      → find addr id g.reassembly ≡ some e
      → accept_chunk (now i) g addr (header_of id n pads i) (chunk_of p n i)
        ≡ store_chunk g e (header_of id n pads i) (chunk_of p n i)
  unfolding accept_chunk
  accept-found g e i t at =
      let same_total : (e.total == n) ≡ true = ground (arith, t) in
      rw (at, accept_chunk, same_total) refl

  -- A chunk for an entry that is not, where its source has room.
  accept-new :
      (g : GeckoConn) (i : ℕ)
      → find addr id g.reassembly ≡ none
      → g.per_source addr < gecko_max_per_source
      → let e = new_entry (now i) addr (header_of id n pads i) in
        accept_chunk (now i) g addr (header_of id n pads i) (chunk_of p n i)
        ≡ store_chunk (with_entry (with_room g) e) e (header_of id n pads i) (chunk_of p n i)
  unfolding accept_chunk
  accept-new g i at l =
      let room : leb gecko_max_per_source (g.per_source addr) ≡ false = ground (arith, l) in
      rw (at, accept_chunk, room) refl

  -- No collection comes behind the deadline.
  abbrev Timely : ℕ → List ℕ → Type 0
  Timely deadline = All (λ i. All (λ t. t ≤ deadline) (collections i))

  with_room-Spares :
      (deadline : ℕ) (g : GeckoConn)
      → All (Spares addr id deadline) g.reassembly
      → All (Spares addr id deadline) (with_room g).reassembly
  with_room-Spares deadline g s =
      elim (Bool-cases (leb gecko_max_reassembly (length g.reassembly))) [
        | inl h ↦ rw (h, with_room) (evict_oldest-Spares addr id deadline g s)
        | inr h ↦ rw (h, with_room) s
      ]

  accept-rest :
      (got : List Bool) (deadline : ℕ) (g : GeckoConn) (e : ReassemblyEntry) (i : ℕ)
      (order : List ℕ)
      → length got ≡ n
      → Holds got deadline e
      → find addr id g.reassembly ≡ some e
      → All (Spares addr id deadline) g.reassembly
      → Timely deadline (i ∷ order)
      → Fresh got (i ∷ order)
      → ones got + length (i ∷ order) ≡ n
      → (accept_all g (i ∷ order)).1 ≡ packet_last (length order)
  accept-rest got deadline g e i [] size h at own timely (free, fresh) count =
      let (g', q) = store-last got deadline size i free g e h (omega arith) in
      rw (accept-found g e i h.has_total at, q) refl
  accept-rest got deadline g e i (j ∷ order) size h at own (early, timely) (free, fresh) count =
      let (g', e', q, h', at', own') =
        store-more got deadline size i free g e h at own (omega arith) in
      let (kept, own'') = gc_all-keeps addr id deadline (collections i) g' early own' in
      let rest =
        accept-rest (set got i true) deadline (gc_all (collections i) g') e' j order
          (length-set got i true ∙ size) h' (kept ∙ at') own'' timely fresh
          (omega (arith, ones-set got i free)) in
      rw (accept-found g e i h.has_total at, q, rest) refl

  -- Every collection comes while the entry that the first chunk makes has not expired.
  abbrev pub InTime : List ℕ → Type 0
  InTime [] = Unit {0}
  InTime (i ∷ order) = Timely (now i + gecko_reassembly_ttl) (i ∷ order)

  -- The chunks of a packet in any order, each once, with any padding, from a source with room and under an
  -- id that is not in use: nothing comes out before the last chunk, and then the packet. Expired entries
  -- may be collected between them, up to eight seconds behind the first chunk, which is when its entry
  -- expires; no other chunk comes in between. There are at least two chunks.
  pub accept_all-chunks :
      (g : GeckoConn) (order : List ℕ)
      → find addr id g.reassembly ≡ none
      → g.per_source addr < gecko_max_per_source
      → 2 ≤ n
      → EachOnce n order
      → InTime order
      → (accept_all g order).1 ≡ packet_last (n - 1)
  accept_all-chunks g [] at l two (fresh, count) timely = absurd (omega arith)
  accept_all-chunks g (i ∷ []) at l two (fresh, count) timely = absurd (omega arith)
  accept_all-chunks g (i ∷ j ∷ order) at l two ((free, fresh), count) (early, timely) =
      let got = replicate n false in
      let deadline = now i + gecko_reassembly_ttl in
      let e = new_entry (now i) addr (header_of id n pads i) in
      let start : Holds got deadline e = record {
        has_deadline = refl;
        has_addr = refl;
        has_id = refl;
        has_chunks = sym (slots-empty (chunk_of p n) n 0);
        has_count = sym (ones-replicate n);
        has_total = refl;
      } in
      let self : has_key addr id e ≡ true = ground arith in
      let size : length got ≡ n = length-replicate n false in
      let spares = find-Spares addr id deadline g.reassembly at in
      let own : All (Spares addr id deadline) (with_entry (with_room g) e).reassembly =
        (inr refl, with_room-Spares deadline g spares) in
      let (g', e', q, h', at', own') =
        store-more got deadline size i free (with_entry (with_room g) e) e start (rw self refl) own
          (omega (arith, ones-replicate n)) in
      let (kept, own'') = gc_all-keeps addr id deadline (collections i) g' early own' in
      let rest =
        accept-rest (set got i true) deadline (gc_all (collections i) g') e' j order
          (length-set got i true ∙ size) h' (kept ∙ at') own'' timely fresh
          (omega (arith, ones-set got i free, ones-replicate n, count)) in
      let steps : n - 1 ≡ suc (length order) = omega (arith, count) in
      rw (accept-new g i at l, q, rest, steps) refl
