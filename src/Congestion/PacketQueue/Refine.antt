-- ===== src/Congestion/PacketQueue/Refine.antt =====
-- Runs of calls on core/internal/congestion/bbr/packet_number_indexed_queue.go, and the same calls on a ledger.
use hysteria.Common.{
  ℕ, ◌≤◌, ◌≡◌, inl, refl, sym, ap, subst, List, [], ◌∷◌, none, some, Option, length, arith,
}
use hysteria.Common.Results.Panics.{◌>>=◌}
use hysteria.Congestion.Ring.{len}
use hysteria.Congestion.Ring.Window.{contents, length-contents}
use hysteria.Congestion.Ring.History.{init-IsValid}
use hysteria.Congestion.PacketQueue.{
  new_packet_number_indexed_queue, PacketNumberIndexedQueue, emplace, get_entry, remove,
  remove_up_to, last_packet, entry_slots_used,
}
use hysteria.Congestion.PacketQueue.Ledger.{
  Ledger, Call, add, look, take_out, forget_below, numbers, Answer, added, found, done, seen,
  keep_from, ledger_step, ledger_answers,
}
use hysteria.Congestion.PacketQueue.Clear.{StandsFor, clearup-StandsFor, drop_front-Covers}
use hysteria.Congestion.PacketQueue.First.{numbers-see}
use hysteria.Congestion.PacketQueue.Entry.{get_entry-look_up, remove-StandsFor}
use hysteria.Congestion.PacketQueue.Emplace.{emplace-StandsFor}

module _ {A : Type 0} where
  -- One call of the queue, or none where it panics.
  abbrev pub queue_step :
      A → PacketNumberIndexedQueue A → Call A → Option (Answer A × PacketNumberIndexedQueue A)
  queue_step z p (add k x) = do made ← emplace z p k x; some (added (made.0), made.1)
  queue_step z p (look k) = some (found (get_entry p k), p)
  queue_step z p (take_out k) = do made ← remove z p k; some (found (made.0), made.1)
  queue_step z p (forget_below k) = do p' ← remove_up_to z p k; some (done, p')
  queue_step z p numbers =
      some (seen p.number_of_present_entries p.first_packet (last_packet p) (entry_slots_used p), p)

  abbrev pub queue_answers :
      A → PacketNumberIndexedQueue A → List (Call A) → Option (List (Answer A))
  queue_answers z p [] = some []
  queue_answers z p (c ∷ cs) = do
    made ← queue_step z p c
    rest ← queue_answers z (made.1) cs
    some (made.0 ∷ rest)

  -- One call of the queue, against the same call of the ledger.
  step-StandsFor :
      (z : A) (p : PacketNumberIndexedQueue A) (l : Ledger A) (c : Call A)
      → StandsFor p l
      → (p' : PacketNumberIndexedQueue A) × (queue_step z p c ≡ some ((ledger_step l c).0, p'))
        × StandsFor p' ((ledger_step l c).1)
  unfolding emplace remove_up_to
  step-StandsFor z p l (add k none) h = (p, refl, h)
  step-StandsFor z p l (add k (some x)) h =
      let (b, p', l', o, e, h') = emplace-StandsFor z p l k x h in
      (p', rw (o, e) refl, subst (λ m. StandsFor p' (m.1)) (sym e) h')
  step-StandsFor z p l (look k) h = (p, ap (λ o. some (found o, p)) (get_entry-look_up p l k h), h)
  step-StandsFor z p l (take_out k) h =
      let (p', o, h') = remove-StandsFor z p l k h in (p', rw o refl, h')
  step-StandsFor z p l (forget_below k) h =
      let enough : length (contents p.entries) ≤ len p.entries =
        omega (arith, length-contents p.entries h.covers.valid) in
      let (p1, o1, h1) = drop_front-Covers z (len p.entries) p l k h.covers enough in
      let (p2, o2, h2) = clearup-StandsFor z p1 (record l { kept = keep_from k l.kept }) h1 in
      (p2, rw (o1, o2) refl, h2)
  step-StandsFor z p l numbers h = (p, ap (λ a. some (a, p)) (numbers-see p l h), h)

  pub new-StandsFor :
      (size last : ℕ)
      → StandsFor {A = A} (new_packet_number_indexed_queue size) (record { kept = []; last = last })
  new-StandsFor size last = record {
    covers = record {
      valid = init-IsValid size;
      counted = refl;
      same_kept = refl;
      reaches = inl refl;
    };
    begins = refl;
    first_number = inl (refl, refl);
  }

  -- A run of calls on a queue never panics, and gives the answers that the same run gives on the ledger
  -- that the queue stands for: an entry is added only behind the last number or to an empty queue, a gap
  -- before it holds no entry, a lookup and a removal find exactly the kept entries, a removal up to a
  -- number keeps the entries from there on, and the counts and the first and the last number are those
  -- of the kept entries and the last one added.
  pub answers-eq-ledger :
      (z : A) (p : PacketNumberIndexedQueue A) (l : Ledger A) (cs : List (Call A))
      → StandsFor p l
      → queue_answers z p cs ≡ some (ledger_answers l cs)
  answers-eq-ledger z p l [] h = refl
  answers-eq-ledger z p l (c ∷ cs) h =
      let (p', o, h') = step-StandsFor z p l c h in
      rw (o, answers-eq-ledger z p' ((ledger_step l c).1) cs h') refl
