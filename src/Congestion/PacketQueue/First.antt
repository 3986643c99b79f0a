-- ===== src/Congestion/PacketQueue/First.antt =====
-- The observers of core/internal/congestion/bbr/packet_number_indexed_queue.go.
use hysteria.Common.{
  ℕ, suc, ◌+◌, ◌-◌, ◌<◌, ◌≡◌, ◌⊎◌, inl, inr, refl, sym, ◌∙◌, ap, List, [], ◌∷◌, true, length, arith,
}
use hysteria.Congestion.Ring.{len}
use hysteria.Congestion.Ring.Window.{contents, length-contents}
use hysteria.Congestion.PacketQueue.{
  EntryWrapper, PacketNumberIndexedQueue, last_packet, entry_slots_used,
}
use hysteria.Congestion.PacketQueue.Ledger.{Ledger, seen, see}
use hysteria.Congestion.PacketQueue.Slots.{listed, present_count, starts, length-listed}
use hysteria.Congestion.PacketQueue.Clear.{StandsFor}

module _ {A : Type 0} where
  some_first :
      (ws : List (EntryWrapper A))
      → starts ws ≡ true
      → 0 < length ws
      → (w : EntryWrapper A) × (rest : List (EntryWrapper A)) × (ws ≡ w ∷ rest) × (w.present ≡ true)
  some_first [] b h = absurd (omega arith)
  some_first (w ∷ ws) b h = (w, ws, refl, b)

  -- A queue is empty, or its first slot is that of the first entry of the ledger.
  pub first-cases :
      (p : PacketNumberIndexedQueue A) (l : Ledger A)
      → StandsFor p l
      → ((p.number_of_present_entries ≡ 0)
          × (contents p.entries ≡ [])
          × (p.first_packet ≡ 0)
          × (l.kept ≡ []))
        ⊎ ((x : A) × (es : List (ℕ × A)) × (0 < p.number_of_present_entries)
            × (0 < p.first_packet)
            × (l.kept ≡ (p.first_packet, x) ∷ es)
            × (p.number_of_present_entries ≡ suc (length es))
            × (l.last + 1 ≡ p.first_packet + len p.entries)
            × (0 < len p.entries))
  first-cases p l h = elim h.first_number [
    | inl (c, f) ↦
        inl (h.covers.counted ∙ ap present_count c, c, f, rw (h.covers.same_kept, c) refl)
    | inr (pos, started) ↦
        let (w, ws, c, q) = some_first (contents p.entries) h.begins pos in
        let size = length-contents p.entries h.covers.valid in
        let count : p.number_of_present_entries ≡ suc (present_count ws) =
          rw (h.covers.counted, c, q) refl in
        inr (
          w.entry,
          listed (suc p.first_packet) ws,
          omega (arith, count),
          started,
          rw (h.covers.same_kept, c, q) refl,
          count ∙ ap suc (sym (length-listed (suc p.first_packet) ws)),
          elim h.covers.reaches [
            | inl e ↦ absurd (omega (arith, pos, ap length e))
            | inr (s, e) ↦ e ∙ ap (λ n. p.first_packet + n) size
          ],
          omega (arith, size, pos),
        )
  ]

  pub numbers-see :
      (p : PacketNumberIndexedQueue A) (l : Ledger A)
      → StandsFor p l
      → seen p.number_of_present_entries p.first_packet (last_packet p) (entry_slots_used p)
        ≡ see l.kept l.last
  numbers-see p l h = elim (first-cases p l h) [
    | inl (n, c, f, k) ↦
        let slots : len p.entries ≡ 0 =
          sym (length-contents p.entries h.covers.valid) ∙ ap length c in
        rw (k, n, f) (ap (seen 0 0 0) slots)
    | inr (x, es, pos, started, k, n, reach, room) ↦
        let slots : len p.entries ≡ l.last + 1 - p.first_packet = omega (arith, reach) in
        let last : last_packet p ≡ l.last = ground (arith, pos, reach) in
        rw k (
          ap (λ m. seen m p.first_packet (last_packet p) (len p.entries)) n
          ∙ ap (λ m. seen (suc (length es)) p.first_packet m (len p.entries)) last
          ∙ ap (λ m. seen (suc (length es)) p.first_packet l.last m) slots)
  ]
