-- ===== src/Congestion/PacketQueue/Emplace.antt =====
-- `Emplace` of core/internal/congestion/bbr/packet_number_indexed_queue.go.
use hysteria.Common.{
  ℕ, zero, suc, ◌+◌, ◌-◌, ◌≤◌, ◌<◌, ◌≡◌, inl, inr, refl, sym, ◌∙◌, ap, List, [], ◌∷◌, ◌++◌, some,
  Bool, true, false, leb, ◌==◌, length, replicate, arith, Bool-cases, append_assoc, length-append,
  append-nil, length-replicate,
}
use hysteria.Congestion.Ring.{RingBuffer, len}
use hysteria.Congestion.Ring.Window.{contents, IsValid, length-contents}
use hysteria.Congestion.Ring.Refine.{push_back-contents}
use hysteria.Congestion.PacketQueue.{
  EntryWrapper, PacketNumberIndexedQueue, absent, push_gap, emplace, emplace_first, emplace_last,
}
use hysteria.Congestion.PacketQueue.Ledger.{Ledger, added, add_entry}
use hysteria.Congestion.PacketQueue.Slots.{
  listed, present_count, starts, listed-append, listed-gap, present_count-append, present_count-gap,
}
use hysteria.Congestion.PacketQueue.Clear.{StandsFor}
use hysteria.Congestion.PacketQueue.First.{first-cases}

module _ {A : Type 0} where
  push_gap-contents :
      (z : A) (gap : ℕ) (r : RingBuffer (EntryWrapper A))
      → IsValid r
      → (r' : RingBuffer (EntryWrapper A)) × (push_gap z gap r ≡ some r')
        × IsValid r'
        × (contents r' ≡ contents r ++ replicate gap (absent z))
  unfolding push_gap
  push_gap-contents z zero r v = (r, refl, v, sym (append-nil (contents r)))
  push_gap-contents z (suc gap) r v =
      let (r1, e, v1, c) = push_back-contents (absent z) r (absent z) v in
      let (r2, f, v2, d) = push_gap-contents z gap r1 v1 in
      (
        r2,
        rw e f,
        v2,
        d
            ∙ ap (λ ws. ws ++ replicate gap (absent z)) c
            ∙ append_assoc (contents r) (absent z ∷ []) (replicate gap (absent z)),
      )

  -- The first entry of a queue.
  emplace_first-StandsFor :
      (z : A) (p : PacketNumberIndexedQueue A) (l : Ledger A) (k : ℕ) (x : A)
      → StandsFor p l
      → contents p.entries ≡ []
      → l.kept ≡ []
      → 0 < k
      → (p' : PacketNumberIndexedQueue A) × (emplace_first z p k x ≡ some (true, p'))
        × StandsFor p' (record { kept = l.kept ++ ((k, x) ∷ []); last = k })
  emplace_first-StandsFor z p l k x h c e pos =
      let w : EntryWrapper A = record { present = true; entry = x } in
      let (r, o, v, d) = push_back-contents (absent z) p.entries w h.covers.valid in
      let one : contents r ≡ w ∷ [] = d ∙ ap (λ ws. ws ++ (w ∷ [])) c in
      (
        record { entries = r; number_of_present_entries = 1; first_packet = k },
        rw o refl,
        record {
          covers = record {
            valid = v;
            counted = ap present_count (sym one);
            same_kept = rw (e, one) refl;
            reaches = inr (pos, omega (arith, ap length one));
          };
          begins = rw one refl;
          first_number = inr (omega (arith, ap length one), pos);
        },
      )

  -- What an addition behind the last entry leaves in the slots.
  added_slots :
      (z x : A) (first k : ℕ) (ws : List (EntryWrapper A))
      → first + length ws ≤ k
      → let new : List (EntryWrapper A) =
          ws
          ++ (replicate (k - first - length ws) (absent z)
              ++ (record { present = true; entry = x } ∷ [])) in
        (listed first new ≡ listed first ws ++ ((k, x) ∷ []))
        × (present_count new ≡ present_count ws + 1)
        × (first + length new ≡ k + 1)
  added_slots z x first k ws h =
      let w : EntryWrapper A = record { present = true; entry = x } in
      let gap = k - first - length ws in
      let place : first + length ws + gap ≡ k = omega arith in
      (
        listed-append first ws (replicate gap (absent z) ++ (w ∷ []))
            ∙ ap (λ es. listed first ws ++ es) (listed-gap z (first + length ws) gap w refl)
            ∙ ap (λ n. listed first ws ++ ((n, x) ∷ [])) place,
        present_count-append ws (replicate gap (absent z) ++ (w ∷ []))
            ∙ ap (λ n. present_count ws + n) (present_count-gap z gap w refl),
        omega (
          arith,
          length-append ws (replicate gap (absent z) ++ (w ∷ [])),
          length-append (replicate gap (absent z)) (w ∷ []),
          length-replicate gap (absent z),
        ),
      )

  starts-append : (ws vs : List (EntryWrapper A)) → 0 < length ws → starts (ws ++ vs) ≡ starts ws
  starts-append [] vs h = absurd (omega arith)
  starts-append (w ∷ ws) vs h = refl

  -- Another entry behind the last one.
  emplace_last-StandsFor :
      (z : A) (p : PacketNumberIndexedQueue A) (l : Ledger A) (k : ℕ) (x : A)
      → StandsFor p l
      → 0 < len p.entries
      → 0 < p.first_packet
      → p.first_packet + len p.entries ≤ k
      → (p' : PacketNumberIndexedQueue A) × (emplace_last z p k x ≡ some (true, p'))
        × StandsFor p' (record { kept = l.kept ++ ((k, x) ∷ []); last = k })
  emplace_last-StandsFor z p l k x h room started behind =
      let w : EntryWrapper A = record { present = true; entry = x } in
      let ws = contents p.entries in
      let size = length-contents p.entries h.covers.valid in
      let gap = k - p.first_packet - len p.entries in
      let (r1, o1, v1, c1) = push_gap-contents z gap p.entries h.covers.valid in
      let (r2, o2, v2, c2) = push_back-contents (absent z) r1 w v1 in
      let new : contents r2
          ≡ ws ++ (replicate (k - p.first_packet - length ws) (absent z) ++ (w ∷ [])) =
        c2
        ∙ ap (λ vs. vs ++ (w ∷ [])) c1
        ∙ append_assoc ws (replicate gap (absent z)) (w ∷ [])
        ∙ ap (λ n. ws ++ (replicate (k - p.first_packet - n) (absent z) ++ (w ∷ []))) (sym size) in
      let (kept, count, reach) =
        added_slots z x p.first_packet k ws (omega (arith, behind, size)) in
      let longer : length ws < length (contents r2) =
        omega (arith, reach, ap length new, size, behind) in
      (
        record p { entries = r2; number_of_present_entries = p.number_of_present_entries + 1 },
        rw (o1, o2) refl,
        record {
          covers = record {
            valid = v2;
            counted = ap (λ n. n + 1) h.covers.counted ∙ sym count ∙ ap present_count (sym new);
            same_kept =
                ap (λ es. es ++ ((k, x) ∷ [])) h.covers.same_kept
                ∙ sym kept
                ∙ ap (listed p.first_packet) (sym new);
            reaches = inr (started, omega (arith, reach, ap length new));
          };
          begins = ap starts new ∙ starts-append ws _ (omega (arith, size, room)) ∙ h.begins;
          first_number = inr (omega (arith, longer), started);
        },
      )

  -- `Emplace` never panics; it adds what the ledger adds, and answers alike.
  pub emplace-StandsFor :
      (z : A) (p : PacketNumberIndexedQueue A) (l : Ledger A) (k : ℕ) (x : A)
      → StandsFor p l
      → (b : Bool) × (p' : PacketNumberIndexedQueue A) × (l' : Ledger A) × (emplace z p k (some x)
          ≡ some (b, p'))
        × (add_entry k x l ≡ (added b, l'))
        × StandsFor p' l'
  unfolding emplace
  emplace-StandsFor z p l k x h = elim (Bool-cases (k == 0)) [
    | inl q ↦ (false, p, l, rw q refl, rw q refl, h)
    | inr q ↦ elim (first-cases p l h) [
      | inl (n, c, f, e) ↦
          let (p', o, h') = emplace_first-StandsFor z p l k x h c e (ground (arith, q)) in
          (
            true,
            p',
            record { kept = l.kept ++ ((k, x) ∷ []); last = k },
            rw (q, n) o,
            rw (q, e) refl,
            h',
          )
      | inr (y, es, pos, started, e, n, reach, room) ↦
          let last : p.first_packet + len p.entries - 1 ≡ l.last = omega (arith, reach) in
          let queue_holds : (p.number_of_present_entries == 0) ≡ false = ground (arith, pos) in
          let ledger_holds : (length l.kept == 0) ≡ false = rw e (ground arith) in
          elim (Bool-cases (leb k l.last)) [
            | inl old ↦ (
              false,
              p,
              l,
              rw (q, queue_holds, last, old) refl,
              rw (q, ledger_holds, old) refl,
              h,
            )
            | inr new ↦
                let (p', o, h') =
                  emplace_last-StandsFor z p l k x h room started (ground (arith, new, reach)) in
                (
                  true,
                  p',
                  record { kept = l.kept ++ ((k, x) ∷ []); last = k },
                  rw (q, queue_holds, last, new) o,
                  rw (q, ledger_holds, new) refl,
                  h',
                )
          ]
    ]
  ]
