-- ===== src/Congestion/PacketQueue/Clear.antt =====
-- The loops of core/internal/congestion/bbr/packet_number_indexed_queue.go, and the ledger that a queue stands for.
use hysteria.Common.{
  ℕ, zero, suc, ◌+◌, ◌≤◌, ◌<◌, ◌≡◌, ◌⊎◌, inl, inr, refl, sym, ◌∙◌, ap, subst, List, [], ◌∷◌, some,
  true, false, not, ltb, ◌==◌, ◌&&◌, length, arith, Bool-cases,
}
use hysteria.Congestion.Ring.{RingBuffer, len, empty}
use hysteria.Congestion.Ring.Window.{contents, IsValid, length-contents}
use hysteria.Congestion.Ring.Store.{front-cases}
use hysteria.Congestion.PacketQueue.{
  EntryWrapper, PacketNumberIndexedQueue, absent, clear_front, drop_front, clearup, less_one,
}
use hysteria.Congestion.PacketQueue.Ledger.{Ledger, keep_from}
use hysteria.Congestion.PacketQueue.Slots.{
  listed, present_count, starts, keep_from-all, keep_from-cons,
}

length-zero : {B : Type 0} (xs : List B) → length xs ≤ 0 → xs ≡ []
length-zero [] h = refl
length-zero (x ∷ xs) h = absurd (omega arith)

module _ {A : Type 0} where
  -- The slots of the queue are the entries of the ledger, and end at its last number.
  pub record Covers (p : PacketNumberIndexedQueue A) (l : Ledger A) : Type 0 where
    pub valid : IsValid p.entries
    pub counted : p.number_of_present_entries ≡ present_count (contents p.entries)
    pub same_kept : l.kept ≡ listed p.first_packet (contents p.entries)
    pub reaches :
        (contents p.entries ≡ [])
        ⊎ ((0 < p.first_packet) × (l.last + 1 ≡ p.first_packet + length (contents p.entries)))

  -- The queue stands for the ledger between two calls: also the first slot is that of a kept entry, and
  -- the first number is the invalid one exactly when there is no slot.
  pub record StandsFor (p : PacketNumberIndexedQueue A) (l : Ledger A) : Type 0 where
    pub covers : Covers p l
    pub begins : starts (contents p.entries) ≡ true
    pub first_number :
        ((contents p.entries ≡ []) × (p.first_packet ≡ 0))
        ⊎ ((0 < length (contents p.entries)) × (0 < p.first_packet))

  -- The queue without its first slot.
  abbrev behind :
      PacketNumberIndexedQueue A
      → EntryWrapper A
      → RingBuffer (EntryWrapper A)
      → PacketNumberIndexedQueue A
  behind p w r = record {
    entries = r;
    number_of_present_entries = less_one w.present p.number_of_present_entries;
    first_packet = p.first_packet + 1;
  }

  behind-Covers :
      (p : PacketNumberIndexedQueue A) (l : Ledger A) (w : EntryWrapper A)
      (r : RingBuffer (EntryWrapper A))
      → Covers p l
      → IsValid r
      → contents p.entries ≡ w ∷ contents r
      → Covers (behind p w r) (record l { kept = listed (p.first_packet + 1) (contents r) })
  behind-Covers p l w r h v c =
      let size : length (contents p.entries) ≡ suc (length (contents r)) = ap length c in
      let count : p.number_of_present_entries ≡ present_count (w ∷ contents r) =
        h.counted ∙ ap present_count c in
      record {
        valid = v;
        counted = ground (arith, count);
        same_kept = refl;
        reaches = elim h.reaches [
          | inl e ↦ absurd (omega (arith, size, ap length e))
          | inr (pos, e) ↦ inr (omega arith, omega (arith, e, size))
        ];
      }

  -- The loop of `clearup` reaches a kept entry or the end, and loses no entry.
  clear_front-Covers :
      (z : A) (fuel : ℕ) (p : PacketNumberIndexedQueue A) (l : Ledger A)
      → Covers p l
      → length (contents p.entries) ≤ fuel
      → (p' : PacketNumberIndexedQueue A) × (clear_front z fuel p ≡ some p')
        × Covers p' l
        × (starts (contents p'.entries) ≡ true)
  unfolding clear_front
  clear_front-Covers z zero p l h k = (p, refl, h, nothing (contents p.entries) k)
    where
      nothing : (ws : List (EntryWrapper A)) → length ws ≤ 0 → starts ws ≡ true
      nothing [] h = refl
      nothing (w ∷ ws) h = absurd (omega arith)
  clear_front-Covers z (suc fuel) p l h k = elim (front-cases (absent z) p.entries h.valid) [
    | inl (e, c) ↦ (p, rw e refl, h, rw c refl)
    | inr (w, r, e, f, o, v, c) ↦ elim (Bool-cases w.present) [
      | inl q ↦ (p, rw (e, f, q) refl, h, rw (c, q) refl)
      | inr q ↦
          let p1 : PacketNumberIndexedQueue A = record p {
            entries = r;
            first_packet = p.first_packet + 1;
          } in
          let listed_same : listed (p.first_packet + 1) (contents r) ≡ l.kept =
            sym (rw (h.same_kept, c, q) (ap (λ n. listed n (contents r)) (omega arith))) in
          let h1 : Covers p1 l =
            subst
              (λ b.
                Covers
                  (record p1 { number_of_present_entries = less_one b p.number_of_present_entries })
                  l)
              q
              (subst (λ es. Covers (behind p w r) (record l { kept = es })) listed_same
                (behind-Covers p l w r h v c)) in
          let (p', s, h', b) = clear_front-Covers z fuel p1 l h1 (omega (arith, ap length c)) in
          (p', rw (e, f, q, o) s, h', b)
    ]
  ]

  -- Fuel for every slot is enough for `clearup`, which leaves a queue that stands for the same ledger.
  pub clearup-StandsFor :
      (z : A) (p : PacketNumberIndexedQueue A) (l : Ledger A)
      → Covers p l
      → (p' : PacketNumberIndexedQueue A) × (clearup z p ≡ some p') × StandsFor p' l
  unfolding clearup
  clearup-StandsFor z p l h =
      let (p1, s, h1, b) =
        clear_front-Covers z (len p.entries) p l h
          (omega (arith, length-contents p.entries h.valid)) in
      elim (front-cases (absent z) p1.entries h1.valid) [
        | inl (e, c) ↦ (
          record p1 { first_packet = 0 },
          rw (s, e) refl,
          record {
            covers = record {
              valid = h1.valid;
              counted = h1.counted;
              same_kept = rw (h1.same_kept, c) refl;
              reaches = inl c;
            };
            begins = b;
            first_number = inl (c, refl);
          },
        )
        | inr (w, r, e, f, o, v, c) ↦ (
          p1,
          rw (s, e) refl,
          record {
            covers = h1;
            begins = b;
            first_number = elim h1.reaches [
              | inl none_left ↦ absurd (omega (arith, ap length c, ap length none_left))
              | inr (pos, u) ↦ inr (omega (arith, ap length c), pos)
            ];
          },
        )
      ]

  none_dropped :
      (p : PacketNumberIndexedQueue A) (l : Ledger A) (k : ℕ)
      → Covers p l
      → (contents p.entries ≡ []) ⊎ (k ≤ p.first_packet)
      → Covers p (record l { kept = keep_from k l.kept })
  none_dropped p l k h e = record {
    valid = h.valid;
    counted = h.counted;
    same_kept = rw h.same_kept (elim e [
      | inl c ↦ rw c refl
      | inr d ↦ keep_from-all p.first_packet k (contents p.entries) d
    ]);
    reaches = h.reaches;
  }

  -- The loop of `RemoveUpTo` leaves the entries from the packet number on.
  pub drop_front-Covers :
      (z : A) (fuel : ℕ) (p : PacketNumberIndexedQueue A) (l : Ledger A) (k : ℕ)
      → Covers p l
      → length (contents p.entries) ≤ fuel
      → (p' : PacketNumberIndexedQueue A) × (drop_front z fuel p k ≡ some p')
        × Covers p' (record l { kept = keep_from k l.kept })
  unfolding drop_front
  drop_front-Covers z zero p l k h n =
      (p, refl, none_dropped p l k h (inl (length-zero (contents p.entries) n)))
  drop_front-Covers z (suc fuel) p l k h n = elim (front-cases (absent z) p.entries h.valid) [
    | inl (e, c) ↦ (p, rw e refl, none_dropped p l k h (inl c))
    | inr (w, r, e, f, o, v, c) ↦ elim (Bool-cases (ltb p.first_packet k)) [
      | inl q ↦
          let started : 0 < p.first_packet = elim h.reaches [
            | inl none_left ↦ absurd (omega (arith, ap length c, ap length none_left))
            | inr (pos, u) ↦ pos
          ] in
          let open_loop : (not (empty p.entries)
                && not (p.first_packet == 0)
                && ltb p.first_packet k)
              ≡ true =
            ground (arith, e, started, q) in
          let rest : List (ℕ × A) = listed (p.first_packet + 1) (contents r) in
          let same : keep_from k rest ≡ keep_from k l.kept =
            rw (h.same_kept, c)
              (ap (λ n. keep_from k (listed n (contents r))) (omega arith)
                ∙ sym (keep_from-cons p.first_packet k w (contents r) (ground (arith, q)))) in
          let (p', s, h') =
            drop_front-Covers z fuel (behind p w r) (record l { kept = rest }) k
              (behind-Covers p l w r h v c) (omega (arith, ap length c)) in
          (p', rw (open_loop, o) s, subst (λ es. Covers p' (record l { kept = es })) same h')
      | inr q ↦
          let closed_loop : (not (empty p.entries)
                && not (p.first_packet == 0)
                && ltb p.first_packet k)
              ≡ false =
            ground (arith, e, q) in
          (p, rw closed_loop refl, none_dropped p l k h (inr (ground (arith, q))))
    ]
  ]
