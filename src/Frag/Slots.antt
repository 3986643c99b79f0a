-- ===== src/Frag/Slots.antt =====
-- The slots of a `Defragger` that has received some of the fragments 0 … n-1 of one message: `got`
-- says which.
use hysteria.Common.{
  ℕ, zero, suc, ◌+◌, ◌≡◌, refl, sym, ap, ◌∙◌, List, [], ◌∷◌, ◌++◌, some, Bool, true, false, arith,
  length, get_or, set, replicate, append-nil, append_assoc,
}
use hysteria.Common.Slots.{ones, ones-le-length, slots}
use hysteria.Common.Bytes.Writes.{Filling, fill_start, fill_done, copy_fills}
use hysteria.Protocol.Udp.{UdpMessage}
use hysteria.Frag.{assemble}
use hysteria.Frag.Split.{payloads, all_fragments}

module _ (frag : ℕ → UdpMessage) where
  -- The bytes received.
  abbrev pub received : List Bool → ℕ → ℕ
  received [] j = 0
  received (true ∷ got) j = length (frag j).payload + received got (j + 1)
  received (false ∷ got) j = received got (j + 1)

  pub received-empty : (n j : ℕ) → received (replicate n false) j ≡ 0
  received-empty zero j = refl
  received-empty (suc n) j = received-empty n (j + 1)

  pub received-set :
      (got : List Bool) (i j t : ℕ)
      → t ≡ j + i
      → get_or got i true ≡ false
      → received (set got i true) j ≡ received got j + length (frag t).payload
  received-set [] i j t e h = absurd (cc h)
  received-set (true ∷ got) zero j t e h = absurd (cc h)
  received-set (false ∷ got) zero j t e h =
      let same : t ≡ j = omega arith in omega (arith, ap (λ k. length (frag k).payload) same)
  received-set (true ∷ got) (suc i) j t e h =
      omega (arith, received-set got i (j + 1) t (omega arith) h)
  received-set (false ∷ got) (suc i) j t e h = received-set got i (j + 1) t (omega arith) h

  -- With all fragments there, the loop over the slots joins the payloads.
  assemble-fills :
      (got : List Bool) (j off room : ℕ) (buf front : List ℕ)
      → ones got ≡ length got
      → Filling buf front off room
      → received got j ≡ room
      → assemble buf off (slots frag got j)
        ≡ some (front ++ payloads (all_fragments frag j (length got)))
  unfolding assemble
  assemble-fills [] j off room buf front c f r =
      ap some (fill_done f (sym r) ∙ sym (append-nil front))
  assemble-fills (false ∷ got) j off room buf front c f r =
      absurd (omega (arith, ones-le-length got))
  assemble-fills (true ∷ got) j off room buf front c f r =
      let (b, q, g) = copy_fills f (frag j).payload (omega arith) in
      rw q (
        assemble-fills got (j + 1) _ _ b (front ++ (frag j).payload) (omega arith) g (omega arith)
        ∙ ap some (append_assoc front (frag j).payload _))

  pub assemble_all :
      (got : List Bool)
      → ones got ≡ length got
      → assemble (replicate (received got 0) 0) 0 (slots frag got 0)
        ≡ some (payloads (all_fragments frag 0 (length got)))
  assemble_all got c = assemble-fills got 0 0 _ _ [] c (fill_start _) refl
