-- ===== src/Congestion/Ring/Store.antt =====
-- What a client of core/internal/congestion/bbr/ringbuffer.go uses: a store through the pointer that `Offset` returns, and
-- the cases of a front.
use hysteria.Common.{
  ℕ, zero, suc, ◌+◌, ◌-◌, ◌%◌, ◌≤◌, ◌<◌, ◌≡◌, ◌⊎◌, inl, inr, some, true, false, refl, sym, ◌∙◌, ap,
  List, [], ◌∷◌, ◌++◌, length, take, drop, set, arith, length-set, length-drop,
}
use hysteria.Congestion.Ring.{RingBuffer, len, empty, front, pop_front}
use hysteria.Congestion.Ring.Window.{
  contents, IsValid, drop-set_lt, drop-set_ge, take-set_ge, length-contents,
}
use hysteria.Congestion.Ring.History.{mod-once, front-contents}
use hysteria.Congestion.Ring.Refine.{pop_front-contents}
use native.Mathlib.Nat.{mod-eq_of_lt}

module _ {A : Type 0} where
  take-set_lt : (xs : List A) (i n : ℕ) (v : A) → i < n → take n (set xs i v) ≡ set (take n xs) i v
  take-set_lt xs i zero v h = absurd (omega arith)
  take-set_lt [] i (suc n) v h = refl
  take-set_lt (x ∷ xs) zero (suc n) v h = refl
  take-set_lt (x ∷ xs) (suc i) (suc n) v h = ap (λ l. x ∷ l) (take-set_lt xs i n v (omega arith))

  set-append_lt :
      (xs ys : List A) (i : ℕ) (v : A) → i < length xs → set (xs ++ ys) i v ≡ set xs i v ++ ys
  set-append_lt [] ys i v h = absurd (omega arith)
  set-append_lt (x ∷ xs) ys zero v h = refl
  set-append_lt (x ∷ xs) ys (suc i) v h = ap (λ l. x ∷ l) (set-append_lt xs ys i v (omega arith))

  set-append_ge :
      (xs ys : List A) (i : ℕ) (v : A)
      → length xs ≤ i
      → set (xs ++ ys) i v ≡ xs ++ set ys (i - length xs) v
  set-append_ge [] ys i v h = ap (λ n. set ys n v) (omega arith)
  set-append_ge (x ∷ xs) ys zero v h = absurd (omega arith)
  set-append_ge (x ∷ xs) ys (suc i) v h =
      let e : i - length xs ≡ suc i - suc (length xs) = omega arith in
      ap (λ l. x ∷ l) (set-append_ge xs ys i v (omega arith) ∙ ap (λ n. xs ++ set ys n v) e)

  -- The ring after the store.
  abbrev pub stored : RingBuffer A → ℕ → A → RingBuffer A
  stored r i v = record r { ring = set r.ring ((r.head_pos + i) % length r.ring) v }

  pub stored-IsValid : (r : RingBuffer A) (i : ℕ) (v : A) → IsValid r → IsValid (stored r i v)
  stored-IsValid r i v h =
      let e = length-set r.ring ((r.head_pos + i) % length r.ring) v in
      record {
        head_in = ground (arith, h.head_in, e);
        tail_in = ground (arith, h.tail_in, e);
        is_full = ground (arith, h.is_full, e);
      }

  pub contents-stored :
      (r : RingBuffer A) (i : ℕ) (v : A)
      → IsValid r
      → i < len r
      → contents (stored r i v) ≡ set (contents r) i v
  contents-stored r i v h k =
      let straight = r.tail_pos - r.head_pos in
      let rest = drop r.head_pos r.ring in
      let start = take r.tail_pos r.ring in
      let near : r.head_pos + i < length r.ring
          → (r.head_pos + i) % length r.ring ≡ r.head_pos + i =
        mod-eq_of_lt in
      let same_place : r.head_pos + i - r.head_pos ≡ i = omega arith in
      ground (
        arith,
        k,
        h.head_in,
        h.tail_in,
        h.is_full,
        near,
        same_place,
        mod-once (r.head_pos + i) (length r.ring),
        drop-set_ge r.ring (r.head_pos + i) r.head_pos v,
        drop-set_lt r.ring (r.head_pos + i - length r.ring) r.head_pos v,
        take-set_ge r.ring (r.head_pos + i) r.tail_pos v,
        take-set_lt r.ring (r.head_pos + i - length r.ring) r.tail_pos v,
        take-set_lt rest i straight v,
        set-append_lt rest start i v,
        set-append_ge rest start i v,
        length-drop r.head_pos r.ring,
      )

  -- A valid ring is empty, or has an element in front that a pop returns.
  pub front-cases :
      (z : A) (r : RingBuffer A)
      → IsValid r
      → ((empty r ≡ true) × (contents r ≡ []))
        ⊎ ((x : A) × (r' : RingBuffer A) × (empty r ≡ false)
            × (front r ≡ some x)
            × (pop_front z r ≡ some (x, r'))
            × IsValid r'
            × (contents r ≡ x ∷ contents r'))
  front-cases z r v = elim (pop_front-contents z r v) [
    | inl (o, c) ↦
        let size : len r ≡ 0 = sym (length-contents r v) ∙ ap length c in
        inl (ground (arith, size, v.head_in, v.tail_in, v.is_full), c)
    | inr (x, r', o, v', c) ↦
        let size : len r ≡ suc (length (contents r')) = sym (length-contents r v) ∙ ap length c in
        inr (
          x,
          r',
          ground (arith, size, v.head_in, v.tail_in, v.is_full),
          rw (front-contents r v, c) refl,
          o,
          v',
          c,
        )
  ]
