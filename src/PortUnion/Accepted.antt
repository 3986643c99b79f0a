-- ===== src/PortUnion/Accepted.antt =====
-- The texts that `ParsePortUnion` of extras/utils/portunion.go accepts.
use hysteria.Common.{
  ℕ, ◌+◌, ◌-◌, ◌*◌, ◌≡◌, refl, sym, ap, ◌∙◌, List, [], ◌∷◌, ◌++◌, map, some, ◌==◌, ◌||◌, leb, ◌&&◌,
  All, arith, Bool-cases, inl, inr, subst, ◌↔◌,
}
use hysteria.Common.Bytes.{same, same_iff}
use hysteria.PortUnion.{PortRange, normalize}
use hysteria.PortUnion.Parse.{
  split, parse_digits, parse_uint16, in_order, parse_range, parse_port_str, parse_all,
  parse_port_union, has_byte, bind_some, parse_digits_le,
}
use hysteria.PortUnion.Written.{
  value, IsDigit, IsNumber, Part, one, two, IsWritten, text_of, range_of, join_parts, in_order-min,
  all_word, star, Says, parse_port_union-Says,
}

-- Texts with a separator between them.
abbrev join_texts : ℕ → List ℕ → List (List ℕ) → List ℕ
join_texts sep w [] = w
join_texts sep w (v ∷ vs) = w ++ (sep ∷ join_texts sep v vs)

join_texts-cons :
    (sep c : ℕ) (w : List ℕ) (ws : List (List ℕ))
    → join_texts sep (c ∷ w) ws ≡ c ∷ join_texts sep w ws
join_texts-cons sep c w [] = refl
join_texts-cons sep c w (v ∷ vs) = refl

split-join_texts :
    (sep : ℕ) (s : List ℕ)
    → (w : List ℕ) × (ws : List (List ℕ)) × (split sep s ≡ w ∷ ws) × (s ≡ join_texts sep w ws)
unfolding split
split-join_texts sep [] = ([], [], refl, refl)
split-join_texts sep (c ∷ s) =
    let (w, ws, e, j) = split-join_texts sep s in
    elim (Bool-cases (c == sep)) [
      | inl h ↦
          let same_byte : c ≡ sep = ground (arith, h) in
          ([], w ∷ ws, rw (h, e) refl, rw (same_byte, j) refl)
      | inr h ↦ (c ∷ w, ws, rw (h, e) refl, ap (◌∷◌ c) j ∙ sym (join_texts-cons sep c w ws))
    ]

parse_digits-IsDigit :
    (n : ℕ) (s : List ℕ) (v : ℕ) → parse_digits n s ≡ some v → All IsDigit s × (value n s ≡ v)
unfolding parse_digits
parse_digits-IsDigit n [] v e = (tt, ground (arith, e))
parse_digits-IsDigit n (c ∷ s) v e =
    elim (Bool-cases (leb b'0' c && leb c b'9' && leb (n * 10 + (c - b'0')) 65535)) [
      | inl h ↦
          let (digits, same_value) = parse_digits-IsDigit (n * 10 + (c - b'0')) s v (rw h at e) in
          ((ground (arith, h), digits), same_value)
      | inr h ↦ absurd (cc (rw h at e))
    ]

parse_uint16-IsNumber :
    (s : List ℕ) (v : ℕ) → parse_uint16 s ≡ some v → IsNumber s × (value 0 s ≡ v)
unfolding parse_uint16
parse_uint16-IsNumber [] v e = absurd (cc e)
parse_uint16-IsNumber (c ∷ s) v e =
    let (digits, same_value) = parse_digits-IsDigit 0 (c ∷ s) v e in
    let small = parse_digits_le 0 (c ∷ s) v (omega arith) e in
    ((digits, omega (arith, same_value, small)), same_value)

-- What a part of the text is where it is accepted.
abbrev Fits : List ℕ → PortRange → Type 0
Fits s r = (p : Part) × IsWritten p × (s ≡ text_of p) × (range_of p ≡ r)

parse_range-Fits :
    (w : List ℕ) (ws : List (List ℕ)) (r : PortRange)
    → parse_range (w ∷ ws) ≡ some r
    → Fits (join_texts b'-' w ws) r
unfolding parse_range
parse_range-Fits w [] r e = absurd (cc e)
parse_range-Fits w (v ∷ []) r e =
    let (start, e₁, f₁) = bind_some (parse_uint16 w) _ r e in
    let (stop, e₂, f₂) = bind_some (parse_uint16 v) _ r f₁ in
    let (number, first) = parse_uint16-IsNumber w start e₁ in
    let (number', second) = parse_uint16-IsNumber v stop e₂ in
    let ordered : in_order start stop ≡ r = cc f₂ in
    (two w v, (number, number'), refl, rw (first, second) (sym (in_order-min start stop) ∙ ordered))
parse_range-Fits w (v ∷ x ∷ ws) r e = absurd (cc e)

parse_port_str-Fits : (s : List ℕ) (r : PortRange) → parse_port_str s ≡ some r → Fits s r
unfolding parse_port_str
parse_port_str-Fits s r e = elim (Bool-cases (has_byte b'-' s)) [
  | inl h ↦
      let (w, ws, f, j) = split-join_texts b'-' s in
      let parsed : parse_range (split b'-' s) ≡ some r = rw h at e in
      subst (λ t. Fits t r) (sym j) (parse_range-Fits w ws r (rw f at parsed))
  | inr h ↦
      let (port, e₁, f) =
        bind_some (parse_uint16 s) (λ port. some (record { start = port; stop = port })) r
          (rw h at e) in
      let (number, first) = parse_uint16-IsNumber s port e₁ in
      (one s, number, refl, rw first (cc f))
]

parse_all-Fits :
    (w : List ℕ) (ws : List (List ℕ)) (u : List PortRange)
    → parse_all (w ∷ ws) ≡ some u
    → (p : Part) × (ps : List Part) × All IsWritten (p ∷ ps)
      × (join_texts b',' w ws ≡ join_parts p ps)
      × (u ≡ map range_of (p ∷ ps))
unfolding parse_all
parse_all-Fits w [] u e =
    let (r, e₁, f) = bind_some (parse_port_str w) _ u e in
    let (p, h, t, q) = parse_port_str-Fits w r e₁ in
    let single : u ≡ r ∷ [] = cc f in (p, [], (h, tt), t, rw q single)
parse_all-Fits w (v ∷ vs) u e =
    let (r, e₁, f) = bind_some (parse_port_str w) _ u e in
    let (us, e₂, g) = bind_some (parse_all (v ∷ vs)) _ u f in
    let (p, h, t, q) = parse_port_str-Fits w r e₁ in
    let (p', ps, hs, t', q') = parse_all-Fits v vs us e₂ in
    let both : u ≡ r ∷ us = cc g in (p, p' ∷ ps, (h, hs), rw (t, t') refl, both ∙ rw (q, q') refl)

parse_port_union-accepts :
    (sort_slice : List PortRange → List PortRange) (s : List ℕ) (u : List PortRange)
    → parse_port_union sort_slice s ≡ some u
    → Says sort_slice s u
unfolding parse_port_union
parse_port_union-accepts sort_slice s u e = elim (Bool-cases (same s all_word || same s star)) [
  | inl h ↦
      let full : u ≡ record { start = 0; stop = 65535 } ∷ [] = cc (rw h at e) in
      elim (Bool-cases (same s all_word)) [
        | inl a ↦ inl (inl ((same_iff s all_word).0 a), full)
        | inr a ↦ inl (inr ((same_iff s star).0 (rw a at h)), full)
      ]
  | inr h ↦
      let (w, ws, f, j) = split-join_texts b',' s in
      let (v, e₁, g) =
        bind_some (parse_all (split b',' s)) (λ result. some (normalize sort_slice result)) u
          (rw h at e) in
      let (p, ps, written, t, q) = parse_all-Fits w ws v (rw f at e₁) in
      let normal : u ≡ normalize sort_slice v = cc g in
      inr (p, ps, written, j ∙ t, normal ∙ ap (normalize sort_slice) q)
]

-- `ParsePortUnion` accepts exactly the words `all` and `*`, which say every port, and parts with commas between
-- them, each a decimal number of at most 65535 or two of them with a dash between, in any order and also with
-- zeros in front; and it returns the normalized ranges of the parts in the order of the text.
pub parse_port_union_iff :
    (sort_slice : List PortRange → List PortRange) (s : List ℕ) (u : List PortRange)
    → (parse_port_union sort_slice s ≡ some u) ↔ Says sort_slice s u
parse_port_union_iff sort_slice s u =
    (parse_port_union-accepts sort_slice s u, parse_port_union-Says sort_slice s u)
