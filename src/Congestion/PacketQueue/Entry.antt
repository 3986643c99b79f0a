-- ===== src/Congestion/PacketQueue/Entry.antt =====
-- `getEntryWraper` and `Remove` of core/internal/congestion/bbr/packet_number_indexed_queue.go.
use hysteria.Common.{
  ℕ, zero, suc, ◌+◌, ◌-◌, ◌≤◌, ◌<◌, ◌≡◌, ◌⊎◌, inl, inr, refl, sym, ◌∙◌, ap, subst, List, [], ◌∷◌,
  none, some, Option, true, false, leb, ltb, ◌==◌, ◌||◌, length, set, length-set, get_elem?, arith,
  Bool-cases,
}
use hysteria.Congestion.Ring.{len}
use hysteria.Congestion.Ring.Window.{contents, length-contents}
use hysteria.Congestion.Ring.History.{offset-contents, get_elem?-out}
use hysteria.Congestion.PacketQueue.{
  EntryWrapper, PacketNumberIndexedQueue, get_entry_wrapper, get_entry, if_present, entry_of,
  remove, mark_absent,
}
use hysteria.Congestion.PacketQueue.Ledger.{Ledger, look_up, delete}
use hysteria.Congestion.PacketQueue.Slots.{
  listed, present_count, starts, look_up-below, look_up-listed, delete-none, listed-set,
  present_count-set,
}
use hysteria.Congestion.PacketQueue.Clear.{Covers, StandsFor, clearup-StandsFor}
use hysteria.Congestion.PacketQueue.First.{first-cases}
use hysteria.Congestion.Ring.Store.{contents-stored, stored-IsValid}

module _ {A : Type 0} where
  if_present-cases :
      (o : Option (EntryWrapper A))
      → (if_present o ≡ none)
        ⊎ ((w : EntryWrapper A) × (o ≡ some w) × (w.present ≡ true) × (if_present o ≡ some w))
  if_present-cases none = inl refl
  if_present-cases (some v) = elim (Bool-cases v.present) [
    | inl q ↦ inr (v, refl, q, rw q refl)
    | inr q ↦ inl (rw q refl)
  ]

  -- What `getEntryWraper` finds is the entry of the ledger, in its slot.
  pub record IsSlotOf (p : PacketNumberIndexedQueue A) (l : Ledger A) (k : ℕ) (w : EntryWrapper A)
      : Type 0 where
    pub is_some : get_entry_wrapper p k ≡ some w
    pub is_present : w.present ≡ true
    pub in_slot : get_elem? (contents p.entries) (k - p.first_packet) ≡ some w
    pub from_first : p.first_packet ≤ k
    pub in_queue : k - p.first_packet < len p.entries
    pub is_kept : look_up k l.kept ≡ some w.entry

  pub get_entry_wrapper-cases :
      (p : PacketNumberIndexedQueue A) (l : Ledger A) (k : ℕ)
      → StandsFor p l
      → ((get_entry_wrapper p k ≡ none) × (look_up k l.kept ≡ none))
        ⊎ ((w : EntryWrapper A) × IsSlotOf p l k w)
  unfolding get_entry_wrapper
  get_entry_wrapper-cases p l k h = elim (first-cases p l h) [
    | inl (n, c, f, e) ↦ inl (ground (arith, n), rw e refl)
    | inr (x, es, pos, started, e, n, reach, room) ↦ elim (Bool-cases (ltb k p.first_packet)) [
      | inl q ↦ inl (
        ground (arith, q),
        rw h.covers.same_kept
            (look_up-below p.first_packet k (contents p.entries) (ground (arith, q))),
      )
      | inr q ↦
          let at = k - p.first_packet in
          let place = offset-contents p.entries at h.covers.valid in
          let asked : look_up k l.kept ≡ entry_of (if_present (get_elem? (contents p.entries) at)) =
            ap (look_up k) h.covers.same_kept
            ∙ sym (look_up-listed p.first_packet k (contents p.entries) (ground (arith, q))) in
          let guards : ((k == 0) || (p.number_of_present_entries == 0) || ltb k p.first_packet)
              ≡ false =
            ground (arith, pos, started, q) in
          elim (Bool-cases (leb (len p.entries) at)) [
            | inl out ↦
                let gone : get_elem? (contents p.entries) at ≡ none =
                  get_elem?-out (contents p.entries) at
                    (ground (arith, out, length-contents p.entries h.covers.valid)) in
                inl (rw (guards, out) refl, rw (asked, gone) refl)
            | inr inside ↦ elim (if_present-cases (get_elem? (contents p.entries) at)) [
              | inl missing ↦ inl (rw (guards, inside, place) missing, rw (asked, missing) refl)
              | inr (w, g, present, given) ↦ inr (
                w,
                record {
                  is_some = rw (guards, inside, place) given;
                  is_present = present;
                  in_slot = g;
                  from_first = ground (arith, q);
                  in_queue = ground (arith, inside);
                  is_kept = rw (asked, given) refl;
                },
              )
            ]
          ]
    ]
  ]

  pub get_entry-look_up :
      (p : PacketNumberIndexedQueue A) (l : Ledger A) (k : ℕ)
      → StandsFor p l
      → get_entry p k ≡ look_up k l.kept
  unfolding get_entry
  get_entry-look_up p l k h = elim (get_entry_wrapper-cases p l k h) [
    | inl (e, n) ↦ rw (e, n) refl
    | inr (w, s) ↦ rw (s.is_some, s.is_kept) refl
  ]

  mark_absent-Covers :
      (p : PacketNumberIndexedQueue A) (l : Ledger A) (k : ℕ) (w : EntryWrapper A)
      → StandsFor p l
      → IsSlotOf p l k w
      → Covers (mark_absent p (k - p.first_packet) w) (record l { kept = delete k l.kept })
  mark_absent-Covers p l k w h s =
      let v : EntryWrapper A = record w { present = false } in
      let at = k - p.first_packet in
      let stored_contents : contents (mark_absent p at w).entries ≡ set (contents p.entries) at v =
        contents-stored p.entries at v h.covers.valid s.in_queue in
      let size = length-contents p.entries h.covers.valid in
      record {
        valid = stored-IsValid p.entries at v h.covers.valid;
        counted =
            let count : suc (present_count (set (contents p.entries) at v))
                ≡ present_count (contents p.entries) =
              present_count-set (contents p.entries) at v w s.in_slot s.is_present refl in
            let one_less : p.number_of_present_entries - 1
                ≡ present_count (set (contents p.entries) at v) =
              omega (arith, count, h.covers.counted) in
            one_less ∙ ap present_count (sym stored_contents);
        same_kept =
            ap (delete k) h.covers.same_kept
            ∙ sym (
                listed-set p.first_packet k (contents p.entries) v s.from_first refl
                  (omega (arith, s.in_queue, size, s.from_first)))
            ∙ ap (listed p.first_packet) (sym stored_contents);
        reaches = elim h.covers.reaches [
          | inl e ↦ absurd (omega (arith, s.in_queue, size, ap length e))
          | inr (started, e) ↦
              let same_size : length (contents (mark_absent p at v).entries)
                  ≡ length (contents p.entries) =
                ap length stored_contents ∙ length-set (contents p.entries) at v in
              inr (started, e ∙ ap (λ n. p.first_packet + n) (sym same_size))
        ];
      }

  starts-set :
      (ws : List (EntryWrapper A)) (i : ℕ) (v : EntryWrapper A)
      → 0 < i
      → starts (set ws i v) ≡ starts ws
  starts-set ws zero v h = absurd (omega arith)
  starts-set [] (suc i) v h = refl
  starts-set (w ∷ ws) (suc i) v h = refl

  -- An entry behind the first one is only marked.
  mark_absent-StandsFor :
      (p : PacketNumberIndexedQueue A) (l : Ledger A) (k : ℕ) (w : EntryWrapper A)
      → StandsFor p l
      → IsSlotOf p l k w
      → (k == p.first_packet) ≡ false
      → StandsFor (mark_absent p (k - p.first_packet) w) (record l { kept = delete k l.kept })
  mark_absent-StandsFor p l k w h s q =
      let v : EntryWrapper A = record w { present = false } in
      let at = k - p.first_packet in
      let stored_contents : contents (mark_absent p at w).entries ≡ set (contents p.entries) at v =
        contents-stored p.entries at v h.covers.valid s.in_queue in
      let same_size : length (contents (mark_absent p at w).entries) ≡ length (contents p.entries) =
        ap length stored_contents ∙ length-set (contents p.entries) at v in
      record {
        covers = mark_absent-Covers p l k w h s;
        begins =
            ap starts stored_contents
            ∙ starts-set (contents p.entries) at v (ground (arith, s.from_first, q))
            ∙ h.begins;
        first_number = elim h.first_number [
          | inl (c, f) ↦
              absurd
                (omega (arith, s.in_queue, length-contents p.entries h.covers.valid, ap length c))
          | inr (pos, started) ↦ inr (omega (arith, pos, same_size), started)
        ];
      }

  -- `Remove` never panics; it gives the entry of the ledger, and deletes it.
  pub remove-StandsFor :
      (z : A) (p : PacketNumberIndexedQueue A) (l : Ledger A) (k : ℕ)
      → StandsFor p l
      → (p' : PacketNumberIndexedQueue A) × (remove z p k ≡ some (look_up k l.kept, p'))
        × StandsFor p' (record l { kept = delete k l.kept })
  unfolding remove
  remove-StandsFor z p l k h = elim (get_entry_wrapper-cases p l k h) [
    | inl (e, n) ↦ (
      p,
      rw (e, n) refl,
      subst (λ es. StandsFor p (record l { kept = es })) (sym (delete-none k l.kept n)) h,
    )
    | inr (w, s) ↦ elim (Bool-cases (k == p.first_packet)) [
      | inl q ↦
          let (p', c, h') =
            clearup-StandsFor z (mark_absent p (k - p.first_packet) w)
              (record l { kept = delete k l.kept }) (mark_absent-Covers p l k w h s) in
          (p', rw (s.is_some, q, c, s.is_kept) refl, h')
      | inr q ↦ (
        mark_absent p (k - p.first_packet) w,
        rw (s.is_some, q, s.is_kept) refl,
        mark_absent-StandsFor p l k w h s q,
      )
    ]
  ]
