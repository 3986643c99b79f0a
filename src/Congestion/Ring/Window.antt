-- ===== src/Congestion/Ring/Window.antt =====
-- Lists under `take`, `drop` and `set`, and what a ring holds.
use hysteria.Common.{
  ℕ, zero, suc, ◌-◌, ◌≤◌, ◌<◌, ◌≡◌, ◌⊎◌, refl, ◌∙◌, ap, List, [], ◌∷◌, ◌++◌, some, Bool, false, ltb,
  ◌||◌, if◌then◌else◌, length, take, drop, set, get_elem?, arith, length-drop, length-take,
  length-append,
}
use hysteria.Congestion.Ring.{RingBuffer, len}

module _ {ℓ} {A : Type ℓ} where
  pub drop-set_lt : (xs : List A) (i n : ℕ) (v : A) → i < n → drop n (set xs i v) ≡ drop n xs
  drop-set_lt [] i n v h = refl
  drop-set_lt (x ∷ xs) i zero v h = absurd (omega arith)
  drop-set_lt (x ∷ xs) zero (suc n) v h = refl
  drop-set_lt (x ∷ xs) (suc i) (suc n) v h = drop-set_lt xs i n v (omega arith)

  pub drop-set_ge :
      (xs : List A) (i n : ℕ) (v : A) → n ≤ i → drop n (set xs i v) ≡ set (drop n xs) (i - n) v
  drop-set_ge xs i zero v h = ap (λ k. set xs k v) (omega arith)
  drop-set_ge [] i (suc n) v h = refl
  drop-set_ge (x ∷ xs) zero (suc n) v h = absurd (omega arith)
  drop-set_ge (x ∷ xs) (suc i) (suc n) v h =
      drop-set_ge xs i n v (omega arith) ∙ ap (λ k. set (drop n xs) k v) (omega arith)

  pub take-set_ge : (xs : List A) (i n : ℕ) (v : A) → n ≤ i → take n (set xs i v) ≡ take n xs
  take-set_ge [] i n v h = refl
  take-set_ge (x ∷ xs) i zero v h = refl
  take-set_ge (x ∷ xs) zero (suc n) v h = absurd (omega arith)
  take-set_ge (x ∷ xs) (suc i) (suc n) v h = ap (λ l. x ∷ l) (take-set_ge xs i n v (omega arith))

  pub take-set :
      (xs : List A) (i : ℕ) (v : A)
      → i < length xs
      → take (suc i) (set xs i v) ≡ take i xs ++ (v ∷ [])
  take-set [] i v h = absurd (omega arith)
  take-set (x ∷ xs) zero v h = refl
  take-set (x ∷ xs) (suc i) v h = ap (λ l. x ∷ l) (take-set xs i v (omega arith))

  pub drop-eq-cons :
      (xs : List A) (i : ℕ)
      → i < length xs
      → (x : A) × (get_elem? xs i ≡ some x) × (drop i xs ≡ x ∷ drop (suc i) xs)
  drop-eq-cons [] i h = absurd (omega arith)
  drop-eq-cons (x ∷ xs) zero h = (x, refl, refl)
  drop-eq-cons (x ∷ xs) (suc i) h = drop-eq-cons xs i (omega arith)

  -- Where elements stand from the head to the tail, or from the head to the end and on from the start.
  abbrev pub window : List A → ℕ → ℕ → Bool → List A
  window ring head tail whole =
      if whole then drop head ring ++ take tail ring else take (tail - head) (drop head ring)

  -- Whether the elements go round the end.
  abbrev pub wraps : RingBuffer A → Bool
  wraps r = r.full || ltb r.tail_pos r.head_pos

  -- The queue that a ring stands for.
  abbrev pub contents : RingBuffer A → List A
  contents r = window r.ring r.head_pos r.tail_pos (wraps r)

  -- Both positions are in the ring, and 0 where it has no room at all; a full ring has room, and its
  -- positions are equal.
  pub record IsValid (r : RingBuffer A) : Type ℓ where
    pub head_in : (r.head_pos < length r.ring) ⊎ ((length r.ring ≡ 0) × (r.head_pos ≡ 0))
    pub tail_in : (r.tail_pos < length r.ring) ⊎ ((length r.ring ≡ 0) × (r.tail_pos ≡ 0))
    pub is_full : (r.full ≡ false) ⊎ ((r.head_pos ≡ r.tail_pos) × (0 < length r.ring))

  pub length-contents : (r : RingBuffer A) → IsValid r → length (contents r) ≡ len r
  length-contents r v = ground (
    arith,
    v.head_in,
    v.tail_in,
    v.is_full,
    length-append (drop r.head_pos r.ring) (take r.tail_pos r.ring),
    length-drop r.head_pos r.ring,
    length-take r.tail_pos r.ring,
    length-take (r.tail_pos - r.head_pos) (drop r.head_pos r.ring),
  )
