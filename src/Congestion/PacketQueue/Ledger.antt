-- ===== src/Congestion/PacketQueue/Ledger.antt =====
-- What core/internal/congestion/bbr/packet_number_indexed_queue.go promises its callers: the entries that are kept
-- with their packet numbers, in ascending order, and the last number that was added.
use hysteria.Common.{
  ℕ, suc, ◌+◌, ◌-◌, List, [], ◌∷◌, ◌++◌, Option, none, some, Bool, true, false, leb, ◌==◌,
  if◌then◌else◌, length,
}

pub record Ledger (A : Type 0) : Type 0 where
  pub kept : List (ℕ × A)
  pub last : ℕ

module _ {A : Type 0} where
  abbrev pub look_up : ℕ → List (ℕ × A) → Option A
  look_up k [] = none
  look_up k (e ∷ es) = if k == e.0 then some (e.1) else look_up k es

  abbrev pub delete : ℕ → List (ℕ × A) → List (ℕ × A)
  delete k [] = []
  delete k (e ∷ es) = let rest = delete k es in if k == e.0 then rest else e ∷ rest

  abbrev pub keep_from : ℕ → List (ℕ × A) → List (ℕ × A)
  keep_from k [] = []
  keep_from k (e ∷ es) = let rest = keep_from k es in if leb k (e.0) then e ∷ rest else rest

-- The calls of a packet queue, and their answers.
pub data Call (A : Type 0) : Type 0 where
  add : ℕ → Option A → Call A
  look : ℕ → Call A
  take_out : ℕ → Call A
  forget_below : ℕ → Call A
  numbers : Call A

pub data Answer (A : Type 0) : Type 0 where
  added : Bool → Answer A
  found : Option A → Answer A
  done : Answer A
  seen : (count first last slots : ℕ) → Answer A

module _ {A : Type 0} where
  -- A number is added to an empty ledger, or behind the last one.
  abbrev pub add_entry : ℕ → A → Ledger A → Answer A × Ledger A
  add_entry k x l =
      let behind : Ledger A = record { kept = l.kept ++ ((k, x) ∷ []); last = k } in
      if k == 0
      then (added false, l)
      else if length l.kept == 0
      then (added true, behind)
      else if leb k l.last
      then (added false, l)
      else (added true, behind)

  abbrev pub see : List (ℕ × A) → ℕ → Answer A
  see [] last = seen 0 0 0 0
  see (e ∷ es) last = seen (suc (length es)) (e.0) last (last + 1 - e.0)

  abbrev pub ledger_step : Ledger A → Call A → Answer A × Ledger A
  ledger_step l (add k none) = (added false, l)
  ledger_step l (add k (some x)) = add_entry k x l
  ledger_step l (look k) = (found (look_up k l.kept), l)
  ledger_step l (take_out k) = (found (look_up k l.kept), record l { kept = delete k l.kept })
  ledger_step l (forget_below k) = (done, record l { kept = keep_from k l.kept })
  ledger_step l numbers = (see l.kept l.last, l)

  abbrev pub ledger_answers : Ledger A → List (Call A) → List (Answer A)
  ledger_answers l [] = []
  ledger_answers l (c ∷ cs) = let made = ledger_step l c in made.0 ∷ ledger_answers (made.1) cs
