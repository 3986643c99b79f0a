-- ===== src/Congestion/Runs.antt =====
-- Runs of core/internal/congestion on small inputs.
use hysteria.Common.{ℕ, refl, ◌≡◌, inl, List, [], ◌∷◌, none, some, true, false, arith}
use hysteria.Congestion.Ring.{RingBuffer}
use hysteria.Congestion.Ring.Window.{IsValid}
use hysteria.Congestion.Ring.History.{
  Operation, append, take_first, read_front, read_at, read_back, answers, ring_step, queue_step,
  answers-eq-queue,
}
use hysteria.Congestion.PacketQueue.{new_packet_number_indexed_queue}
use hysteria.Congestion.PacketQueue.Ledger.{
  Call, add, look, take_out, forget_below, numbers, added, found, done, seen, ledger_answers,
}
use hysteria.Congestion.PacketQueue.Refine.{queue_answers, new-StandsFor, answers-eq-ledger}
use hysteria.Congestion.Window.{WindowedFilter, max_filter, update}
use hysteria.Congestion.Window.Order.{IsOrdered, IsUpdated, update-IsUpdated}

-- Three elements that go round the end of four.
abbrev ring : RingBuffer ℕ
ring = record { ring = 7 ∷ 0 ∷ 5 ∷ 6 ∷ []; head_pos = 2; tail_pos = 1; full = false }

ring-IsValid : IsValid ring
ring-IsValid = record {
  head_in = inl (omega arith);
  tail_in = inl (omega arith);
  is_full = inl refl;
}

abbrev calls : List (Operation ℕ)
calls = append 8 ∷ append 9 ∷ take_first ∷ read_at 2 ∷ read_front ∷ read_back ∷ []

queue_calls :
    answers queue_step (5 ∷ 6 ∷ 7 ∷ []) calls
    ≡ some (none ∷ none ∷ some 5 ∷ some 8 ∷ some 6 ∷ some 9 ∷ [])
queue_calls = refl

answers-eq-queue_example :
    answers (ring_step 0) ring calls ≡ answers queue_step (5 ∷ 6 ∷ 7 ∷ []) calls
answers-eq-queue_example = answers-eq-queue 0 ring calls ring-IsValid

-- Estimates of rounds 2, 5 and 9, where those of a window of ten rounds are kept.
abbrev estimates : WindowedFilter ℕ
estimates = record {
  window_length = 10;
  first = record { sample = 90; time = 2 };
  second = record { sample = 80; time = 5 };
  third = record { sample = 30; time = 9 };
  comparator = max_filter;
}

estimates-IsOrdered : IsOrdered (λ v. v) 14 estimates
estimates-IsOrdered = record {
  first_second = omega arith;
  second_third = omega arith;
  time_second = omega arith;
  time_third = omega arith;
  time_now = omega arith;
  by_rank = λ a b. refl;
}

-- The best has left the window.
update_moves_up : (update 0 estimates 50 14).first.sample ≡ 80
unfolding update
update_moves_up = refl

update-IsUpdated_example :
    IsUpdated (λ v. v) estimates (record { sample = 50; time = 14 }) (update 0 estimates 50 14)
update-IsUpdated_example =
    update-IsUpdated (λ v. v) 0 estimates 50 14 estimates-IsOrdered (omega arith)

-- Entries at 5 and 8, with the slots of 6 and 7 between them, and late calls.
abbrev packet_calls : List (Call ℕ)
packet_calls =
    add 5 (some 50)
    ∷ add 8 (some 80)
    ∷ add 7 (some 70)
    ∷ numbers
    ∷ look 8
    ∷ look 6
    ∷ take_out 5
    ∷ numbers
    ∷ forget_below 9
    ∷ numbers
    ∷ add 2 (some 20)
    ∷ look 2
    ∷ []

ledger_calls :
    ledger_answers (record { kept = []; last = 0 }) packet_calls
    ≡ added true
      ∷ added true
      ∷ added false
      ∷ seen 2 5 8 4
      ∷ found (some 80)
      ∷ found none
      ∷ found (some 50)
      ∷ seen 1 8 8 1
      ∷ done
      ∷ seen 0 0 0 0
      ∷ added true
      ∷ found (some 20)
      ∷ []
ledger_calls = refl

answers-eq-ledger_example :
    queue_answers 0 (new_packet_number_indexed_queue 4) packet_calls
    ≡ some (ledger_answers (record { kept = []; last = 0 }) packet_calls)
answers-eq-ledger_example =
    answers-eq-ledger 0 (new_packet_number_indexed_queue 4) (record { kept = []; last = 0 })
      packet_calls (new-StandsFor 4 0)
