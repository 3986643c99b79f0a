-- ===== src/Frag/Reassemble.antt =====
-- `Feed` against its abstract view: the set of the fragments that have arrived. A defragger that
-- receives the fragments of one message answers as that set says.
use hysteria.Common.{
  ℕ, ◌+◌, ◌%◌, ◌≤◌, ◌<◌, ◌≡◌, ◌≢◌, ◌⊎◌, inl, inr, refl, ap, ◌∙◌, List, Option, none, some, Bool,
  true, false, arith, ◌==◌, if◌then◌else◌, Bool-cases, length, length-set, length-replicate, get_or,
  get_or-replicate, get_elem?, get_elem?-set_self, get_elem?-set_ne, set, replicate,
}
use native.Mathlib.Decide.{ℕ_discrete}
use hysteria.Protocol.Udp.{UdpMessage}
use hysteria.Frag.{Defragger, feed_slot, feed}
use hysteria.Frag.Split.{fragment, payloads, all_fragments}
use hysteria.Common.Slots.{
  ones, ones-le-length, ones-set, in_range, all_there, ones-replicate, slots, length-slots,
  slots-empty, slots-set, slot_empty, slot_taken,
}
use hysteria.Frag.Slots.{received, received-empty, received-set, assemble_all}

module _ (m : UdpMessage) (p n : ℕ) where
  -- The message with its fragments' payloads.
  abbrev pub whole : UdpMessage
  whole = record m {
    frag_id = 0;
    frag_count = 1;
    payload = payloads (all_fragments (fragment m p n) 0 n);
  }

  -- The abstract view: fragment i arrives where those in `got` have arrived. The message comes out
  -- with the last fragment that was missing, once.
  abbrev pub arrive : List Bool → ℕ → List Bool × Option UdpMessage
  arrive got i =
      if get_or got i true
      then (got, none)
      else (set got i true, if ones got + 1 == n then some whole else none)

  -- The defragger that has received the fragments in `got`.
  abbrev pub held : List Bool → Defragger
  held got = record {
    pkt_id = m.packet_id;
    frags = slots (fragment m p n) got 0;
    count = ones got;
    size = received (fragment m p n) got 0;
  }

  -- What the defragger holds of the fragments in `got`, until it has them all, and then.
  pub data Holds (got : List Bool) (d : Defragger) : Type 0 where
    partial : ones got < n → length got ≡ n → d ≡ held got → Holds got d
    complete :
        ones got ≡ n
        → length got ≡ n
        → d.pkt_id ≡ m.packet_id
        → length d.frags ≡ n
        → ((i : ℕ) → i < n → (f : UdpMessage) × (get_elem? d.frags i ≡ some (some f)))
        → Holds got d

  -- Storing fragment i.
  stored :
      (got : List Bool) (i : ℕ)
      → get_or got i true ≡ false
      → ◌≡◌ {A = Defragger}
          (record {
            pkt_id = m.packet_id;
            frags = set (slots (fragment m p n) got 0) i (some (fragment m p n i));
            count = ones got + 1;
            size = received (fragment m p n) got 0 + length (fragment m p n i).payload;
          })
          (held (set got i true))
  stored got i free =
      let is_i : i ≡ 0 + i = omega arith in
      let count : ones got + 1 ≡ ones (set got i true) = omega (arith, ones-set got i free) in
      cc (
        slots-set (fragment m p n) got i 0 i is_i,
        count,
        received-set (fragment m p n) got i 0 i is_i free,
      )

  module _ (two : 2 ≤ n) (small : n < 256) where
    dropped :
        (d : Defragger) (i : ℕ)
        → i < n
        → (m.packet_id ≢ d.pkt_id) ⊎ (n ≢ length d.frags % 256)
        → feed d (fragment m p n i)
          ≡ some (
            record {
              pkt_id = m.packet_id;
              frags = set (replicate n none) i (some (fragment m p n i));
              count = 0 + 1;
              size = 0 + length (fragment m p n i).payload;
            },
            none,
          )
    unfolding feed
    dropped d i h other = ground arith

    -- The first fragment of another message than the one at hand drops what was there.
    pub feed_first :
        (d : Defragger) (i : ℕ)
        → i < n
        → (m.packet_id ≢ d.pkt_id) ⊎ (n ≢ length d.frags % 256)
        → (d' : Defragger) × (feed d (fragment m p n i) ≡ some (d', none))
          × Holds (set (replicate n false) i true) d'
    feed_first d i h other =
        let none_yet = replicate n false in
        let free : get_or none_yet i true ≡ false = get_or-replicate n i false true h in
        (
          held (set none_yet i true),
          dropped d i h other
              ∙ ap (λ e. some (e, none))
                  (cc (
                    stored none_yet i free,
                    slots-empty (fragment m p n) n 0,
                    received-empty (fragment m p n) n 0,
                    ones-replicate n,
                  )),
          partial (omega (arith, ones-set none_yet i free, ones-replicate n))
              (length-set none_yet i true ∙ length-replicate n false) refl,
        )

    -- A fragment of the message at hand.
    feed_same :
        (d : Defragger) (i : ℕ)
        → i < n
        → d.pkt_id ≡ m.packet_id
        → length d.frags ≡ n
        → (get_elem? d.frags i ≡ some none
            → feed d (fragment m p n i) ≡ feed_slot d (fragment m p n i))
          × ((f : UdpMessage)
              → get_elem? d.frags i ≡ some (some f)
              → feed d (fragment m p n i) ≡ some (d, none))
    unfolding feed
    feed_same d i h e l = (λ q. ground arith, λ f q. ground arith)

    -- What a new fragment does to a defragger that holds others of the message.
    module _ (got : List Bool) (i : ℕ) (l : length got ≡ n) (free : get_or got i true ≡ false) where
      abbrev next : List Bool
      next = set got i true

      is_i : i ≡ 0 + i
      is_i = omega arith

      wide : (ones got + 1) % 256 ≡ ones next
      wide = omega (
        arith,
        ones-set got i free,
        ones-le-length got,
        in_range got i free,
        ones-le-length next,
        length-set got i true,
      )

      feed_slot_more :
          ones got + 1 < n → feed_slot (held got) (fragment m p n i) ≡ some (held next, none)
      unfolding feed_slot
      feed_slot_more h =
          let more : (ones next == n) ≡ false = ground (arith, ones-set got i free) in
          rw (
            slots-set (fragment m p n) got i 0 i is_i,
            ← received-set (fragment m p n) got i 0 i is_i free,
            wide,
            length-slots (fragment m p n) next 0,
            length-set got i true,
            l,
            more,
          )

      feed_slot_last :
          ones got + 1 ≡ n
          → feed_slot (held got) (fragment m p n i)
            ≡ some (
              record (held next) { frags = set (slots (fragment m p n) next 0) i (some whole) },
              some whole,
            )
      unfolding feed_slot
      feed_slot_last h =
          let last : (ones next == n) ≡ true = ground (arith, ones-set got i free) in
          let is_n : length next ≡ n = length-set got i true ∙ l in
          let all : ones next ≡ length next = omega (arith, ones-set got i free, is_n) in
          rw (
            slots-set (fragment m p n) got i 0 i is_i,
            ← received-set (fragment m p n) got i 0 i is_i free,
            wide,
            length-slots (fragment m p n) next 0,
            length-set got i true,
            l,
            last,
            assemble_all (fragment m p n) next all,
            is_n,
          )

      -- The slots of the complete message are all taken.
      last_complete :
          ones got + 1 ≡ n
          → Holds next
              (record (held next) { frags = set (slots (fragment m p n) next 0) i (some whole) })
      last_complete h =
          complete (omega (arith, ones-set got i free)) (length-set got i true ∙ l) refl
            (length-set (slots (fragment m p n) next 0) i (some whole)
              ∙ length-slots (fragment m p n) next 0
              ∙ length-set got i true
              ∙ l)
            taken
        where
          xs : List (Option UdpMessage)
          xs = slots (fragment m p n) next 0

          is_n : length next ≡ n
          is_n = length-set got i true ∙ l

          all : ones next ≡ length next
          all = omega (arith, ones-set got i free, is_n)

          taken :
              (j : ℕ)
              → j < n
              → (f : UdpMessage) × (get_elem? (set xs i (some whole)) j ≡ some (some f))
          taken j k = elim (ℕ_discrete i j) [
            | yes e ↦ (
              whole,
              rw (← e) (
                  get_elem?-set_self xs i (some whole)
                    (omega (arith, length-slots (fragment m p n) next 0, is_n))),
            )
            | no ne ↦ (
              fragment m p n (0 + j),
              get_elem?-set_ne xs (some whole) ne
                  ∙ slot_taken (fragment m p n) next j 0 (omega (arith, is_n))
                      (all_there next j all (omega (arith, is_n))),
            )
          ]

    -- The defragger answers as the abstract view says, and goes on holding what that says.
    pub feed-arrive :
        (got : List Bool) (d : Defragger) (i : ℕ)
        → i < n
        → Holds got d
        → (d' : Defragger) × (feed d (fragment m p n i) ≡ some (d', (arrive got i).1))
          × Holds (arrive got i).0 d'
    feed-arrive got d i h (partial some_left l e) = rw e (elim (Bool-cases (get_or got i true)) [
      | inl old ↦ rw old (
        held got,
        (same.1 _ (slot_taken (fragment m p n) got i 0 (omega arith) old)),
        partial some_left l refl,
      )
      | inr new ↦ elim (ℕ_discrete (ones got + 1) n) [
        | yes last ↦
            let is_last : (ones got + 1 == n) ≡ true = ground arith in
            rw (new, is_last)
              (
                _,
                same.0 (slot_empty (fragment m p n) got i 0 new) ∙ feed_slot_last got i l new last,
                last_complete got i l new last,
              )
        | no more ↦
            let is_more : (ones got + 1 == n) ≡ false = ground arith in
            rw (new, is_more)
              (
                _,
                same.0 (slot_empty (fragment m p n) got i 0 new)
                    ∙ feed_slot_more got i l new (omega arith),
                partial (omega (arith, ones-set got i new)) (length-set got i true ∙ l) refl,
              )
      ]
    ])
      where
        same :
            (get_elem? (held got).frags i ≡ some none
              → feed (held got) (fragment m p n i) ≡ feed_slot (held got) (fragment m p n i))
            × ((f : UdpMessage)
                → get_elem? (held got).frags i ≡ some (some f)
                → feed (held got) (fragment m p n i) ≡ some (held got, none))
        same = feed_same (held got) i h refl (length-slots (fragment m p n) got 0 ∙ l)
    feed-arrive got d i h (complete all l e k taken) =
        let (f, q) = taken i h in
        let old : get_or got i true ≡ true = all_there got i (omega arith) (omega arith) in
        rw old (d, (feed_same d i h e k).1 f q, complete all l e k taken)
