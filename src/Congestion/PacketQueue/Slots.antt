-- ===== src/Congestion/PacketQueue/Slots.antt =====
-- The slots of a packet queue as the entries that are kept in them, with their packet numbers.
use hysteria.Common.{
  ℕ, zero, suc, ◌+◌, ◌-◌, ◌≤◌, ◌<◌, ◌≡◌, refl, ◌∙◌, ap, inl, inr, List, [], ◌∷◌, ◌++◌, none, some,
  Bool, true, false, ◌==◌, if◌then◌else◌, length, replicate, set, get_elem?, arith, Bool-cases,
}
use hysteria.Congestion.PacketQueue.{EntryWrapper, absent, if_present, entry_of}
use hysteria.Congestion.PacketQueue.Ledger.{look_up, delete, keep_from}

module _ {A : Type 0} where
  abbrev pub listed : ℕ → List (EntryWrapper A) → List (ℕ × A)
  listed first [] = []
  listed first (w ∷ ws) =
      let rest = listed (suc first) ws in if w.present then (first, w.entry) ∷ rest else rest

  -- The first slot, if any, is that of a kept entry.
  abbrev pub starts : List (EntryWrapper A) → Bool
  starts [] = true
  starts (w ∷ ws) = w.present

  pub look_up-below :
      (first k : ℕ) (ws : List (EntryWrapper A)) → k < first → look_up k (listed first ws) ≡ none
  look_up-below first k [] h = refl
  look_up-below first k (w ∷ ws) h = ground (arith, look_up-below (suc first) k ws (omega arith))

  pub look_up-listed :
      (first k : ℕ) (ws : List (EntryWrapper A))
      → first ≤ k
      → entry_of (if_present (get_elem? ws (k - first))) ≡ look_up k (listed first ws)
  look_up-listed first k [] h = refl
  look_up-listed first k (w ∷ ws) h = elim (Bool-cases (k == first)) [
    | inl e ↦
        let here : k - first ≡ 0 = ground (arith, e) in
        rw here (ground (arith, e, look_up-below (suc first) k ws (ground (arith, e))))
    | inr e ↦
        let later : k - first ≡ suc (k - suc first) = ground (arith, h, e) in
        rw later (ground (arith, e, look_up-listed (suc first) k ws (ground (arith, h, e))))
  ]

  pub delete-below :
      (first k : ℕ) (ws : List (EntryWrapper A))
      → k < first
      → delete k (listed first ws) ≡ listed first ws
  delete-below first k [] h = refl
  delete-below first k (w ∷ ws) h = ground (arith, delete-below (suc first) k ws (omega arith))

  pub delete-none : (k : ℕ) (es : List (ℕ × A)) → look_up k es ≡ none → delete k es ≡ es
  delete-none k [] h = refl
  delete-none k (e ∷ es) h = elim (Bool-cases (k == e.0)) [
    | inl q ↦ ground (arith, h, q)
    | inr q ↦
        let rest : look_up k es ≡ none = ground (arith, h, q) in
        ground (arith, q, delete-none k es rest)
  ]

  -- A slot that is marked absent is that of the deleted entry.
  pub listed-set :
      (first k : ℕ) (ws : List (EntryWrapper A)) (w : EntryWrapper A)
      → first ≤ k
      → w.present ≡ false
      → k < first + length ws
      → listed first (set ws (k - first) w) ≡ delete k (listed first ws)
  listed-set first k [] v h p i = absurd (omega arith)
  listed-set first k (w ∷ ws) v h p i = elim (Bool-cases (k == first)) [
    | inl e ↦
        let here : k - first ≡ 0 = ground (arith, e) in
        rw here (ground (arith, p, e, delete-below (suc first) k ws (ground (arith, e))))
    | inr e ↦
        let later : k - first ≡ suc (k - suc first) = ground (arith, h, e) in
        let ih : listed (suc first) (set ws (k - suc first) v) ≡ delete k (listed (suc first) ws) =
          listed-set (suc first) k ws v (ground (arith, h, e)) p (omega arith) in
        rw later (ground (arith, e, ih))
  ]

  -- The number of kept entries in the slots.
  abbrev pub present_count : List (EntryWrapper A) → ℕ
  present_count [] = 0
  present_count (w ∷ ws) = if w.present then suc (present_count ws) else present_count ws

  pub length-listed :
      (first : ℕ) (ws : List (EntryWrapper A)) → length (listed first ws) ≡ present_count ws
  length-listed first [] = refl
  length-listed first (w ∷ ws) = ground (arith, length-listed (suc first) ws)

  pub present_count-set :
      (ws : List (EntryWrapper A)) (i : ℕ) (w v : EntryWrapper A)
      → get_elem? ws i ≡ some v
      → v.present ≡ true
      → w.present ≡ false
      → suc (present_count (set ws i w)) ≡ present_count ws
  present_count-set [] i w v g p q = ground (arith, g)
  present_count-set (x ∷ ws) zero w v g p q = ground (arith, g, p, q)
  present_count-set (x ∷ ws) (suc i) w v g p q = ground (arith, present_count-set ws i w v g p q)

  pub listed-append :
      (first : ℕ) (ws vs : List (EntryWrapper A))
      → listed first (ws ++ vs) ≡ listed first ws ++ listed (first + length ws) vs
  listed-append first [] vs = ap (λ n. listed n vs) (omega arith)
  listed-append first (w ∷ ws) vs =
      let e : suc first + length ws ≡ first + suc (length ws) = omega arith in
      let ih : listed (suc first) (ws ++ vs)
          ≡ listed (suc first) ws ++ listed (first + suc (length ws)) vs =
        listed-append (suc first) ws vs ∙ ap (λ n. listed (suc first) ws ++ listed n vs) e in
      elim (Bool-cases w.present) [
        | inl p ↦ rw p (ap (λ l. (first, w.entry) ∷ l) ih)
        | inr p ↦ rw p ih
      ]

  pub listed-gap :
      (z : A) (first n : ℕ) (w : EntryWrapper A)
      → w.present ≡ true
      → listed first (replicate n (absent z) ++ (w ∷ [])) ≡ (first + n, w.entry) ∷ []
  listed-gap z first zero w p = rw p (ap (λ k. (k, w.entry) ∷ []) (omega arith))
  listed-gap z first (suc n) w p =
      listed-gap z (suc first) n w p ∙ ap (λ k. (k, w.entry) ∷ []) (omega arith)

  pub present_count-append :
      (ws vs : List (EntryWrapper A))
      → present_count (ws ++ vs) ≡ present_count ws + present_count vs
  present_count-append [] vs = omega arith
  present_count-append (w ∷ ws) vs = ground (arith, present_count-append ws vs)

  pub present_count-gap :
      (z : A) (n : ℕ) (w : EntryWrapper A)
      → w.present ≡ true
      → present_count (replicate n (absent z) ++ (w ∷ [])) ≡ 1
  present_count-gap z zero w p = rw p refl
  present_count-gap z (suc n) w p = present_count-gap z n w p

  pub keep_from-all :
      (first k : ℕ) (ws : List (EntryWrapper A))
      → k ≤ first
      → keep_from k (listed first ws) ≡ listed first ws
  keep_from-all first k [] h = refl
  keep_from-all first k (w ∷ ws) h = ground (arith, keep_from-all (suc first) k ws (omega arith))

  pub keep_from-cons :
      (first k : ℕ) (w : EntryWrapper A) (ws : List (EntryWrapper A))
      → first < k
      → keep_from k (listed first (w ∷ ws)) ≡ keep_from k (listed (suc first) ws)
  keep_from-cons first k w ws h = ground arith
