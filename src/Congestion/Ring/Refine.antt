-- ===== src/Congestion/Ring/Refine.antt =====
-- A valid ring behaves as the queue of the elements that it holds.
use hysteria.Common.{
  ℕ, suc, ◌-◌, ◌*◌, ◌≤◌, ◌<◌, ◌≡◌, ◌⊎◌, inl, inr, refl, sym, subst, ◌∙◌, ap, ap₂, List, [], ◌∷◌,
  ◌++◌, none, some, true, false, ltb, ◌==◌, ◌||◌, if◌then◌else◌, length, take, drop, set, get_elem?,
  arith, take_all, drop_all, length-set, length-drop, length-append, length-take, length-replicate,
  replicate, take-append_self, append_assoc, append-nil, Bool-cases,
}
use hysteria.Congestion.Ring.{
  RingBuffer, empty, grow, push_room, push_back, pop_front, next, initial_ring_size,
}
use hysteria.Congestion.Ring.Window.{
  contents, IsValid, drop-set_lt, drop-set_ge, take-set_ge, take-set, drop-eq-cons,
}

module _ {ℓ} {A : Type ℓ} where
  -- What the store and the move of the tail add, where the elements lie in one run.
  straight_push :
      (ring : List A) (head tail : ℕ) (t : A)
      → head ≤ tail
      → tail < length ring
      → take (suc (tail - head)) (drop head (set ring tail t))
        ≡ take (tail - head) (drop head ring) ++ (t ∷ [])
  straight_push ring head tail t h i =
      ap (take (suc (tail - head))) (drop-set_ge ring tail head t h)
      ∙ take-set (drop head ring) (tail - head) t (omega (arith, length-drop head ring))

  -- The same, where they go round the end.
  round_push :
      (ring : List A) (head tail : ℕ) (t : A)
      → tail < head
      → tail < length ring
      → drop head (set ring tail t) ++ take (suc tail) (set ring tail t)
        ≡ (drop head ring ++ take tail ring) ++ (t ∷ [])
  round_push ring head tail t h i =
      ap₂ (◌++◌) (drop-set_lt ring tail head t h) (take-set ring tail t i)
      ∙ sym (append_assoc (drop head ring) (take tail ring) (t ∷ []))

  straight_push_next :
      (ring : List A) (head tail : ℕ) (t : A)
      → head ≤ tail
      → tail < length ring
      → take (suc tail - head) (drop head (set ring tail t))
        ≡ take (tail - head) (drop head ring) ++ (t ∷ [])
  straight_push_next ring head tail t h i =
      let count : suc tail - head ≡ suc (tail - head) = omega arith in
      ap (λ k. take k (drop head (set ring tail t))) count ∙ straight_push ring head tail t h i

  -- The same, where the tail comes to the end of the slice.
  straight_push_end :
      (ring : List A) (head tail : ℕ) (t : A)
      → head ≤ tail
      → suc tail ≡ length ring
      → drop head (set ring tail t) ++ [] ≡ take (tail - head) (drop head ring) ++ (t ∷ [])
  straight_push_end ring head tail t h e =
      let whole = drop head (set ring tail t) in
      append-nil whole
      ∙ sym (
          take_all (suc tail - head) whole
            (omega (arith, length-drop head (set ring tail t), length-set ring tail t)))
      ∙ straight_push_next ring head tail t h (omega arith)

  straight_pop :
      (ring : List A) (head tail : ℕ) (z x : A)
      → head < tail
      → drop head ring ≡ x ∷ drop (suc head) ring
      → take (tail - head) (drop head ring)
        ≡ x ∷ take (tail - suc head) (drop (suc head) (set ring head z))
  straight_pop ring head tail z x h e =
      let count : tail - head ≡ suc (tail - suc head) = omega arith in
      ap₂ take count e
      ∙ ap (λ l. x ∷ take (tail - suc head) l)
          (sym (drop-set_lt ring head (suc head) z (omega arith)))

  round_pop :
      (ring : List A) (head tail : ℕ) (z x : A)
      → tail ≤ head
      → drop head ring ≡ x ∷ drop (suc head) ring
      → drop head ring ++ take tail ring
        ≡ x ∷ (drop (suc head) (set ring head z) ++ take tail (set ring head z))
  round_pop ring head tail z x h e =
      ap (λ l. l ++ take tail ring) e
      ∙ ap₂ (λ l k. x ∷ (l ++ k)) (sym (drop-set_lt ring head (suc head) z (omega arith)))
          (sym (take-set_ge ring head tail z h))

module _ {A : Type 0} (zero_value : A) where
  -- The ring that an append leaves.
  abbrev pushed : RingBuffer A → A → RingBuffer A
  pushed r t =
      let ring = set r.ring r.tail_pos t in
      let tail = next ring r.tail_pos in
      record r { ring = ring; tail_pos = tail; full = if tail == r.head_pos then true else r.full }

  push_room-eq :
      (r : RingBuffer A) (t : A) → r.tail_pos < length r.ring → push_room r t ≡ some (pushed r t)
  unfolding push_room
  push_room-eq r t h =
      let inside : ltb r.tail_pos (length r.ring) ≡ true = ground arith in rw inside refl

  contents-pushed :
      (r : RingBuffer A) (t : A)
      → IsValid r
      → r.full ≡ false
      → 0 < length r.ring
      → contents (pushed r t) ≡ contents r ++ (t ∷ [])
  contents-pushed r t v room pos = ground (
    arith,
    v.head_in,
    v.tail_in,
    straight_push_next r.ring r.head_pos r.tail_pos t,
    straight_push_end r.ring r.head_pos r.tail_pos t,
    round_push r.ring r.head_pos r.tail_pos t,
    length-set r.ring r.tail_pos t,
  )

  pushed-IsValid :
      (r : RingBuffer A) (t : A)
      → IsValid r
      → r.full ≡ false
      → 0 < length r.ring
      → IsValid (pushed r t)
  pushed-IsValid r t v room pos = record {
    head_in = ground (arith, v.head_in, length-set r.ring r.tail_pos t);
    tail_in = ground (arith, v.tail_in, length-set r.ring r.tail_pos t);
    is_full = ground (arith, length-set r.ring r.tail_pos t);
  }

  pop_front-empty :
      (r : RingBuffer A)
      → empty r ≡ true
      → IsValid r
      → (pop_front zero_value r ≡ none) × (contents r ≡ [])
  unfolding pop_front
  pop_front-empty r e v =
      (rw e refl, ground (arith, e, v.head_in, v.tail_in, take_all 0 (drop r.head_pos r.ring)))

  -- The ring that a pop leaves.
  abbrev popped : RingBuffer A → RingBuffer A
  popped r =
      let ring = set r.ring r.head_pos zero_value in
      record r { ring = ring; head_pos = next ring r.head_pos; full = false }

  pop_front-eq :
      (r : RingBuffer A) (x : A)
      → empty r ≡ false
      → r.head_pos < length r.ring
      → get_elem? r.ring r.head_pos ≡ some x
      → pop_front zero_value r ≡ some (x, popped r)
  unfolding pop_front
  pop_front-eq r x e h g =
      let inside : ltb r.head_pos (length r.ring) ≡ true = ground arith in rw (e, g, inside) refl

  contents-popped :
      (r : RingBuffer A) (x : A)
      → IsValid r
      → empty r ≡ false
      → drop r.head_pos r.ring ≡ x ∷ drop (suc r.head_pos) r.ring
      → contents r ≡ x ∷ contents (popped r)
  contents-popped r x v e d = ground (
    arith,
    v.head_in,
    v.tail_in,
    v.is_full,
    straight_pop r.ring r.head_pos r.tail_pos zero_value x,
    round_pop r.ring r.head_pos r.tail_pos zero_value x,
    drop_all (suc r.head_pos) (set r.ring r.head_pos zero_value),
    length-set r.ring r.head_pos zero_value,
  )

  popped-IsValid : (r : RingBuffer A) → IsValid r → empty r ≡ false → IsValid (popped r)
  popped-IsValid r v e = record {
    head_in =
        ground (arith, v.head_in, v.tail_in, v.is_full, length-set r.ring r.head_pos zero_value);
    tail_in =
        ground (arith, v.head_in, v.tail_in, v.is_full, length-set r.ring r.head_pos zero_value);
    is_full = inl refl;
  }

  grow-contents :
      (r : RingBuffer A)
      → IsValid r
      → (r.full || (length r.ring == 0)) ≡ true
      → contents (grow zero_value r) ≡ contents r
  unfolding grow
  grow-contents r v h =
      let all = drop r.head_pos r.ring ++ take r.head_pos r.ring in
      let rest =
        replicate
          ((if length r.ring == 0 then initial_ring_size else length r.ring * 2) - length r.ring)
          zero_value in
      let size : length all ≡ length r.ring = omega (
        arith,
        v.head_in,
        length-append (drop r.head_pos r.ring) (take r.head_pos r.ring),
        length-drop r.head_pos r.ring,
        length-take r.head_pos r.ring,
      ) in
      let kept : take (length r.ring) (all ++ rest) ≡ all =
        subst (λ n. take n (all ++ rest) ≡ all) size (take-append_self all rest) in
      ground (
        arith,
        h,
        v.head_in,
        v.tail_in,
        v.is_full,
        kept,
        take_all (r.tail_pos - r.head_pos) (drop r.head_pos r.ring),
        length-drop r.head_pos r.ring,
        append-nil (drop r.head_pos r.ring),
      )

  grow-IsValid :
      (r : RingBuffer A)
      → IsValid r
      → (r.full || (length r.ring == 0)) ≡ true
      → IsValid (grow zero_value r)
        × ((grow zero_value r).full ≡ false)
        × (0 < length (grow zero_value r).ring)
  unfolding grow
  grow-IsValid r v h =
      let all = drop r.head_pos r.ring ++ take r.head_pos r.ring in
      let new_size = if length r.ring == 0 then initial_ring_size else length r.ring * 2 in
      let rest = replicate (new_size - length r.ring) zero_value in
      let larger : length r.ring < new_size = ground arith in
      let size : length (all ++ rest) ≡ new_size = omega (
        arith,
        v.head_in,
        larger,
        length-append all rest,
        length-append (drop r.head_pos r.ring) (take r.head_pos r.ring),
        length-drop r.head_pos r.ring,
        length-take r.head_pos r.ring,
        length-replicate (new_size - length r.ring) zero_value,
      ) in
      (
        record {
          head_in = inl (omega (arith, size, larger));
          tail_in = inl (omega (arith, size, larger));
          is_full = inl refl;
        },
        refl,
        omega (arith, size, larger),
      )

  -- An append to a valid ring never fails: the ring stays valid, and holds the element behind the others.
  pub push_back-contents :
      (r : RingBuffer A) (t : A)
      → IsValid r
      → (r' : RingBuffer A) × (push_back zero_value r t ≡ some r')
        × IsValid r'
        × (contents r' ≡ contents r ++ (t ∷ []))
  unfolding push_back
  push_back-contents r t v = elim (Bool-cases (r.full || (length r.ring == 0))) [
    | inl h ↦
        let (v', room, pos) = grow-IsValid r v h in
        let g = grow zero_value r in
        (
          pushed g t,
          rw h (push_room-eq g t (ground (arith, v'.tail_in))),
          pushed-IsValid g t v' room pos,
          contents-pushed g t v' room pos ∙ ap (λ l. l ++ (t ∷ [])) (grow-contents r v h),
        )
    | inr h ↦
        let room : r.full ≡ false = ground (arith, h) in
        let pos : 0 < length r.ring = ground (arith, h) in
        (
          pushed r t,
          rw h (push_room-eq r t (ground (arith, v.tail_in))),
          pushed-IsValid r t v room pos,
          contents-pushed r t v room pos,
        )
  ]

  -- A pop of a valid ring panics exactly when the ring holds nothing, and otherwise returns the first
  -- element and leaves a valid ring with the others.
  pub pop_front-contents :
      (r : RingBuffer A)
      → IsValid r
      → ((pop_front zero_value r ≡ none) × (contents r ≡ []))
        ⊎ ((x : A) × (r' : RingBuffer A) × (pop_front zero_value r ≡ some (x, r'))
            × IsValid r'
            × (contents r ≡ x ∷ contents r'))
  pop_front-contents r v = elim (Bool-cases (empty r)) [
    | inl e ↦ inl (pop_front-empty r e v)
    | inr e ↦
        let h : r.head_pos < length r.ring = ground (arith, e, v.head_in, v.tail_in, v.is_full) in
        let (x, g, d) = drop-eq-cons r.ring r.head_pos h in
        inr (x, popped r, pop_front-eq r x e h g, popped-IsValid r v e, contents-popped r x v e d)
  ]
