-- ===== src/Congestion/Ring/History.antt =====
-- A whole run of calls on a ring, and the same calls on a list.
use hysteria.Common.{
  subst, ℕ, zero, suc, ◌+◌, ◌-◌, ◌%◌, ◌≤◌, ◌<◌, ◌≡◌, inl, inr, refl, sym, ◌∙◌, ap, List, [], ◌∷◌,
  ◌++◌, Option, none, some, leb, ◌||◌, if◌then◌else◌, length, take, drop, get_elem?, arith,
  length-drop, length-replicate, Bool-cases,
}
use hysteria.Common.Results.Panics.{◌>>=◌}
use hysteria.Congestion.Ring.{
  RingBuffer, len, empty, push_back, pop_front, offset, front, back, clear, init,
}
use hysteria.Congestion.Ring.Window.{contents, IsValid, length-contents}
use hysteria.Congestion.Ring.Refine.{push_back-contents, pop_front-contents}
use native.Mathlib.Nat.{mod-eq_of_lt, mod-eq-sub-mod}

pub data Operation (A : Type 0) : Type 0 where
  append : A → Operation A
  take_first : Operation A
  read_front : Operation A
  read_at : ℕ → Operation A
  read_back : Operation A
  empty_all : Operation A

-- One step round a ring at most.
pub mod-once : (n m : ℕ) → m ≤ n → n < m + m → n % m ≡ n - m
mod-once n m h k = mod-eq-sub-mod h ∙ mod-eq_of_lt (omega arith)

module _ {A : Type 0} where
  -- The answers of a run of calls, or none where one of them panics.
  abbrev pub answers :
      {S : Type 0}
      → (S → Operation A → Option (Option A × S))
      → S
      → List (Operation A)
      → Option (List (Option A))
  answers step s [] = some []
  answers step s (o ∷ os) = do
    made ← step s o
    rest ← answers step (made.1) os
    some (made.0 ∷ rest)

  get_elem?-drop : (n : ℕ) (xs : List A) (i : ℕ) → get_elem? (drop n xs) i ≡ get_elem? xs (n + i)
  get_elem?-drop zero xs i = ap (get_elem? xs) (omega arith)
  get_elem?-drop (suc n) [] i = refl
  get_elem?-drop (suc n) (x ∷ xs) i =
      let e : suc n + i ≡ suc (n + i) = omega arith in
      get_elem?-drop n xs i ∙ sym (ap (get_elem? (x ∷ xs)) e)

  get_elem?-take : (n : ℕ) (xs : List A) (i : ℕ) → i < n → get_elem? (take n xs) i ≡ get_elem? xs i
  get_elem?-take zero xs i h = absurd (omega arith)
  get_elem?-take (suc n) [] i h = refl
  get_elem?-take (suc n) (x ∷ xs) zero h = refl
  get_elem?-take (suc n) (x ∷ xs) (suc i) h = get_elem?-take n xs i (omega arith)

  get_elem?-append_lt :
      (xs ys : List A) (i : ℕ) → i < length xs → get_elem? (xs ++ ys) i ≡ get_elem? xs i
  get_elem?-append_lt [] ys i h = absurd (omega arith)
  get_elem?-append_lt (x ∷ xs) ys zero h = refl
  get_elem?-append_lt (x ∷ xs) ys (suc i) h = get_elem?-append_lt xs ys i (omega arith)

  get_elem?-append_ge :
      (xs ys : List A) (i : ℕ)
      → length xs ≤ i
      → get_elem? (xs ++ ys) i ≡ get_elem? ys (i - length xs)
  get_elem?-append_ge [] ys i h = ap (get_elem? ys) (omega arith)
  get_elem?-append_ge (x ∷ xs) ys zero h = absurd (omega arith)
  get_elem?-append_ge (x ∷ xs) ys (suc i) h =
      let same_rest : i - length xs ≡ suc i - suc (length xs) = omega arith in
      get_elem?-append_ge xs ys i (omega arith) ∙ ap (get_elem? ys) same_rest

  pub get_elem?-out : (xs : List A) (i : ℕ) → length xs ≤ i → get_elem? xs i ≡ none
  get_elem?-out [] i h = refl
  get_elem?-out (x ∷ xs) zero h = absurd (omega arith)
  get_elem?-out (x ∷ xs) (suc i) h = get_elem?-out xs i (omega arith)

  get_elem?-contents :
      (r : RingBuffer A) (i : ℕ)
      → IsValid r
      → i < len r
      → get_elem? r.ring ((r.head_pos + i) % length r.ring) ≡ get_elem? (contents r) i
  get_elem?-contents r i v h =
      let straight = r.tail_pos - r.head_pos in
      let rest = drop r.head_pos r.ring in
      let start = take r.tail_pos r.ring in
      let near : r.head_pos + i < length r.ring
          → (r.head_pos + i) % length r.ring ≡ r.head_pos + i =
        mod-eq_of_lt in
      ground (
        arith,
        h,
        v.head_in,
        v.tail_in,
        v.is_full,
        near,
        mod-once (r.head_pos + i) (length r.ring),
        get_elem?-drop r.head_pos r.ring i,
        get_elem?-take straight rest i,
        get_elem?-append_lt rest start i,
        get_elem?-append_ge rest start i,
        get_elem?-take r.tail_pos r.ring (i - length rest),
        length-drop r.head_pos r.ring,
      )

  pub offset-contents :
      (r : RingBuffer A) (i : ℕ) → IsValid r → offset r i ≡ get_elem? (contents r) i
  unfolding offset
  offset-contents r i v = elim (Bool-cases (empty r || leb (len r) i)) [
    | inl h ↦
        let over : length (contents r) ≤ i =
          ground (arith, h, length-contents r v, v.head_in, v.tail_in, v.is_full) in
        rw h (sym (get_elem?-out (contents r) i over))
    | inr h ↦ rw h (get_elem?-contents r i v (ground (arith, h)))
  ]

  pub front-contents : (r : RingBuffer A) → IsValid r → front r ≡ get_elem? (contents r) 0
  unfolding front
  front-contents r v = elim (Bool-cases (empty r)) [
    | inl h ↦
        let over : length (contents r) ≤ 0 =
          ground (arith, h, length-contents r v, v.head_in, v.tail_in, v.is_full) in
        rw h (sym (get_elem?-out (contents r) 0 over))
    | inr h ↦
        let inside : r.head_pos + 0 < length r.ring =
          ground (arith, h, v.head_in, v.tail_in, v.is_full) in
        let first : (r.head_pos + 0) % length r.ring ≡ r.head_pos =
          mod-eq_of_lt inside ∙ omega arith in
        rw h (
          ap (get_elem? r.ring) (sym first)
          ∙ get_elem?-contents r 0 v (ground (arith, h, v.head_in, v.tail_in, v.is_full)))
  ]

  back-contents :
      (r : RingBuffer A) → IsValid r → back r ≡ get_elem? (contents r) (length (contents r) - 1)
  unfolding back
  back-contents r v = elim (Bool-cases (empty r)) [
    | inl h ↦
        let over : length (contents r) ≤ length (contents r) - 1 =
          ground (arith, h, length-contents r v, v.head_in, v.tail_in, v.is_full) in
        rw h (sym (get_elem?-out (contents r) (length (contents r) - 1) over))
    | inr h ↦
        ap (λ b. if b then none else offset r (len r - 1)) h
        ∙ offset-contents r (len r - 1) v
        ∙ ap (λ n. get_elem? (contents r) (n - 1)) (sym (length-contents r v))
  ]

  abbrev pub ring_step : A → RingBuffer A → Operation A → Option (Option A × RingBuffer A)
  ring_step z r (append x) = do r' ← push_back z r x; some (none, r')
  ring_step z r take_first = do answer ← pop_front z r; some (some (answer.0), answer.1)
  ring_step z r read_front = do x ← front r; some (some x, r)
  ring_step z r (read_at i) = do x ← offset r i; some (some x, r)
  ring_step z r read_back = do x ← back r; some (some x, r)
  ring_step z r empty_all = some (none, clear z r)

  -- The calls on a list with the oldest element in front.
  abbrev queue_pop : List A → Option (Option A × List A)
  queue_pop [] = none
  queue_pop (x ∷ xs) = some (some x, xs)

  abbrev queue_read : List A → ℕ → Option (Option A × List A)
  queue_read q i = do x ← get_elem? q i; some (some x, q)

  abbrev pub queue_step : List A → Operation A → Option (Option A × List A)
  queue_step q (append x) = some (none, q ++ (x ∷ []))
  queue_step q take_first = queue_pop q
  queue_step q read_front = queue_read q 0
  queue_step q (read_at i) = queue_read q i
  queue_step q read_back = queue_read q (length q - 1)
  queue_step q empty_all = some (none, [])

  abbrev Agree : Option (Option A × RingBuffer A) → Option (Option A × List A) → Type 0
  Agree none none = Unit
  Agree none (some q) = ⊥
  Agree (some r) none = ⊥
  Agree (some r) (some q) = (r.0 ≡ q.0) × IsValid (r.1) × (contents (r.1) ≡ q.1)

  read_Agree :
      (r : RingBuffer A) (i : ℕ) (f : Option A)
      → IsValid r
      → f ≡ get_elem? (contents r) i
      → Agree (f >>= (λ x. some (some x, r))) (queue_read (contents r) i)
  read_Agree r i f v e =
      subst (λ o. Agree (o >>= (λ x. some (some x, r))) (queue_read (contents r) i)) (sym e)
        (go (get_elem? (contents r) i))
    where
      go :
          (g : Option A)
          → Agree (g >>= (λ x. some (some x, r))) (g >>= (λ x. some (some x, contents r)))
      go none = tt
      go (some x) = (refl, v, refl)

  clear-IsValid : (z : A) (r : RingBuffer A) → IsValid (clear z r)
  unfolding clear
  clear-IsValid z r = record {
    head_in = ground (arith, length-replicate (length r.ring) z);
    tail_in = ground (arith, length-replicate (length r.ring) z);
    is_full = inl refl;
  }

  step_Agree :
      (z : A) (r : RingBuffer A) (o : Operation A)
      → IsValid r
      → Agree (ring_step z r o) (queue_step (contents r) o)
  unfolding clear
  step_Agree z r (append x) v =
      let (r', e, v', c) = push_back-contents z r x v in
      subst (λ o. Agree (o >>= (λ made. some (none, made))) (some (none, contents r ++ (x ∷ []))))
        (sym e) (refl, v', c)
  step_Agree z r take_first v = elim (pop_front-contents z r v) [
    | inl (e, c) ↦ rw (e, c) tt
    | inr (x, r', e, v', c) ↦ rw (e, c) (refl, v', refl)
  ]
  step_Agree z r read_front v = read_Agree r 0 (front r) v (front-contents r v)
  step_Agree z r (read_at i) v = read_Agree r i (offset r i) v (offset-contents r i v)
  step_Agree z r read_back v = read_Agree r (length (contents r) - 1) (back r) v (back-contents r v)
  step_Agree z r empty_all v = (refl, clear-IsValid z r, refl)

  pub init-IsValid : (size : ℕ) → IsValid {A = A} (init size)
  init-IsValid size = record {
    head_in = inr (refl, refl);
    tail_in = inr (refl, refl);
    is_full = inl refl;
  }

  -- One more call, where the rest of the run agrees already.
  one_more :
      (z : A) (os : List (Operation A))
      → ((r : RingBuffer A)
          → IsValid r
          → answers (ring_step z) r os ≡ answers queue_step (contents r) os)
      → (made : Option (Option A × RingBuffer A)) (meant : Option (Option A × List A))
      → Agree made meant
      → (made >>= (λ m. answers (ring_step z) (m.1) os >>= (λ rest. some (m.0 ∷ rest))))
        ≡ (meant >>= (λ m. answers queue_step (m.1) os >>= (λ rest. some (m.0 ∷ rest))))
  one_more z os ih none none e = refl
  one_more z os ih none (some _) e = elim e [ ]
  one_more z os ih (some (a, r')) none e = elim e [ ]
  one_more z os ih (some (a, r')) (some (b, q)) (e, v', c) = rw (e, sym c, ih r' v') refl

  -- A run of calls on a valid ring gives the answers that the same run gives on the list of what the
  -- ring holds, and panics exactly where that run does: an append goes to the end of the list, a pop
  -- takes its head, and the reads are at their places in it.
  pub answers-eq-queue :
      (z : A) (r : RingBuffer A) (os : List (Operation A))
      → IsValid r
      → answers (ring_step z) r os ≡ answers queue_step (contents r) os
  answers-eq-queue z r [] v = refl
  answers-eq-queue z r (o ∷ os) v =
      one_more z os (λ r' v'. answers-eq-queue z r' os v') (ring_step z r o)
        (queue_step (contents r) o) (step_Agree z r o v)
