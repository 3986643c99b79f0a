-- ===== src/PortUnion/Parse.antt =====
-- `ParsePortUnion` of extras/utils/portunion.go, with what it uses of Go's library: `strings.Split`,
-- and `strconv.ParseUint` for base 10 and 16 bits. A text is the list of its bytes; nil is `none`.
use hysteria.Common.{
  ℕ, ◌+◌, ◌-◌, ◌*◌, ◌≤◌, ◌≡◌, refl, sym, List, [], ◌∷◌, Option, none, some, Bool, false, ltb, leb,
  ◌==◌, ◌||◌, ◌&&◌, if◌then◌else◌, All, arith, Bool-cases, inl, inr, subst,
}
use hysteria.Common.Results.Panics.{◌>>=◌}
use mathlib.Core.List.{Permᴰ}
use mathlib.Core.List.Permᴰ.{nil, cons, swap, trans}
use hysteria.PortUnion.{PortRange, Sorts, joins, joined, merge, merge_all, normalize}
use hysteria.PortUnion.Merge.{Apart, normalize-Apart}
use hysteria.Common.Bytes.{same}

-- The first part of a split gets one byte more in front.
abbrev pub cons_head : ℕ → List (List ℕ) → List (List ℕ)
cons_head c [] = (c ∷ []) ∷ []
cons_head c (w ∷ ws) = (c ∷ w) ∷ ws

-- `strings.Split(s, sep)` for a separator of one byte.
unfoldable pub split : ℕ → List ℕ → List (List ℕ)
split sep [] = [] ∷ []
split sep (c ∷ s) = let rest = split sep s in if c == sep then [] ∷ rest else cons_head c rest

-- The digits of a number behind those that make `n`.
unfoldable pub parse_digits : ℕ → List ℕ → Option ℕ
parse_digits n [] = some n
parse_digits n (c ∷ s) =
    let rest = parse_digits (n * 10 + (c - b'0')) s in
    if leb b'0' c && leb c b'9' && leb (n * 10 + (c - b'0')) 65535 then rest else none

-- `strconv.ParseUint(s, 10, 16)`
unfoldable pub parse_uint16 : List ℕ → Option ℕ
unfolding parse_digits
parse_uint16 [] = none
parse_uint16 (c ∷ s) = parse_digits 0 (c ∷ s)

abbrev pub in_order : ℕ → ℕ → PortRange
in_order start stop =
    if ltb stop start
    then record { start = stop; stop = start }
    else record { start = start; stop = stop }

-- The two parts of a range.
unfoldable pub parse_range : List (List ℕ) → Option PortRange
unfolding parse_uint16
parse_range [] = none
parse_range (a ∷ []) = none
parse_range (a ∷ b ∷ []) = do
  start ← parse_uint16 a
  stop ← parse_uint16 b
  some (in_order start stop)
parse_range (a ∷ b ∷ c ∷ parts) = none

abbrev pub has_byte : ℕ → List ℕ → Bool
has_byte sep [] = false
has_byte sep (c ∷ s) = (c == sep) || has_byte sep s

unfoldable pub parse_port_str : List ℕ → Option PortRange
unfolding parse_range split parse_uint16
parse_port_str s =
    if has_byte b'-' s
    then parse_range (split b'-' s)
    else (parse_uint16 s >>= λ port. some (record { start = port; stop = port }))

-- The loop over the parts between commas.
unfoldable pub parse_all : List (List ℕ) → Option (List PortRange)
unfolding parse_port_str
parse_all [] = some []
parse_all (s ∷ parts) = do r ← parse_port_str s; u ← parse_all parts; some (r ∷ u)

unfoldable pub parse_port_union :
    (List PortRange → List PortRange) → List ℕ → Option (List PortRange)
unfolding parse_all split normalize
parse_port_union sort_slice s =
    if same s (b'a' ∷ b'l' ∷ b'l' ∷ []) || same s (b'*' ∷ [])
    then some (record { start = 0; stop = 65535 } ∷ [])
    else (parse_all (split b',' s) >>= λ result. some (normalize sort_slice result))

-- A range of 16-bit ports that is not empty.
abbrev pub IsProper : PortRange → Type 0
IsProper r = (r.start ≤ r.stop) × (r.stop ≤ 65535)

pub parse_digits_le :
    (n : ℕ) (s : List ℕ) (v : ℕ) → n ≤ 65535 → parse_digits n s ≡ some v → v ≤ 65535
unfolding parse_digits
parse_digits_le n [] v h e = ground (arith, e)
parse_digits_le n (c ∷ s) v h e = ground (arith, e, parse_digits_le (n * 10 + (c - b'0')) s v)

pub parse_uint16_le : (s : List ℕ) (v : ℕ) → parse_uint16 s ≡ some v → v ≤ 65535
unfolding parse_uint16
parse_uint16_le [] v e = absurd (cc e)
parse_uint16_le (c ∷ s) v e = parse_digits_le 0 (c ∷ s) v (omega arith) e

in_order-IsProper : (start stop : ℕ) → start ≤ 65535 → stop ≤ 65535 → IsProper (in_order start stop)
in_order-IsProper start stop h k = elim (Bool-cases (ltb stop start)) [
  | inl y ↦ rw y (ground (arith, y), h)
  | inr n ↦ rw n (ground (arith, n), k)
]

pub bind_some :
    {A B : Type 0} (o : Option A) (f : A → Option B) (b : B)
    → (o >>= f) ≡ some b
    → (a : A) × (o ≡ some a) × (f a ≡ some b)
bind_some none f b e = absurd (cc e)
bind_some (some a) f b e = (a, refl, e)

parse_range-IsProper :
    (parts : List (List ℕ)) (r : PortRange) → parse_range parts ≡ some r → IsProper r
unfolding parse_range
parse_range-IsProper [] r e = absurd (cc e)
parse_range-IsProper (a ∷ []) r e = absurd (cc e)
parse_range-IsProper (a ∷ b ∷ []) r e =
    let (start, p, e₁) = bind_some (parse_uint16 a) _ r e in
    let (stop, q, e₂) = bind_some (parse_uint16 b) _ r e₁ in
    subst IsProper (cc e₂)
      (in_order-IsProper start stop (parse_uint16_le a start p) (parse_uint16_le b stop q))
parse_range-IsProper (a ∷ b ∷ c ∷ parts) r e = absurd (cc e)

parse_port_str-IsProper : (s : List ℕ) (r : PortRange) → parse_port_str s ≡ some r → IsProper r
unfolding parse_port_str
parse_port_str-IsProper s r e = elim (Bool-cases (has_byte b'-' s)) [
  | inl y ↦ parse_range-IsProper (split b'-' s) r (rw y at e)
  | inr n ↦
      (let (port, p, e₁) =
          bind_some (parse_uint16 s) (λ port. some (record { start = port; stop = port })) r
            (rw n at e) in
        let q : record { start = port; stop = port } ≡ r = cc e₁ in
        let h : IsProper (record { start = port; stop = port }) =
          (omega arith, parse_uint16_le s port p) in
        subst IsProper q h)
]

parse_all-All :
    (parts : List (List ℕ)) (u : List PortRange) → parse_all parts ≡ some u → All IsProper u
unfolding parse_all
parse_all-All [] u e = let q : [] ≡ u = cc e in subst (All IsProper) q tt
parse_all-All (s ∷ parts) u e =
    let (r, p, e₁) = bind_some (parse_port_str s) _ u e in
    let (v, q, e₂) = bind_some (parse_all parts) _ u e₁ in
    let z : r ∷ v ≡ u = cc e₂ in
    subst (All IsProper) z (parse_port_str-IsProper s r p, parse_all-All parts v q)

All-Permᴰ : (u v : List PortRange) → Permᴰ u v → All IsProper v → All IsProper u
All-Permᴰ _ _ nil a = a
All-Permᴰ (r ∷ u) (s ∷ v) (cons e p) (h, a) = (subst IsProper (sym e) h, All-Permᴰ u v p a)
All-Permᴰ (a ∷ b ∷ u) (_ ∷ _ ∷ _) (swap e f) (h, (k, all)) =
    (subst IsProper (sym e) k, (subst IsProper (sym f) h, all))
All-Permᴰ u w (trans {l₂ = v} p q) a = All-Permᴰ u v p (All-Permᴰ v w q a)

joined-IsProper : (last r : PortRange) → IsProper last → IsProper r → IsProper (joined last r)
joined-IsProper last r (h, k) (i, j) = elim (Bool-cases (ltb last.stop r.stop)) [
  | inl y ↦ rw y (ground (arith, y), j)
  | inr n ↦ rw n (h, k)
]

merge-All :
    (last : PortRange) (u : List PortRange)
    → IsProper last
    → All IsProper u
    → All IsProper (merge last u)
unfolding merge
merge-All last [] h a = (h, tt)
merge-All last (r ∷ u) h (k, a) = elim (Bool-cases (joins last r)) [
  | inl y ↦ rw (y, merge) (merge-All (joined last r) u (joined-IsProper last r h k) a)
  | inr n ↦ rw (n, merge) (h, merge-All r u k a)
]

merge_all-All : (u : List PortRange) → All IsProper u → All IsProper (merge_all u)
merge_all-All [] a = tt
merge_all-All (r ∷ u) (h, a) = merge-All r u h a

-- What `ParsePortUnion` returns is normalized: its ranges hold ports of 16 bits, at least one each, and
-- are in ascending order, none meeting or touching another.
pub parse_port_union-All :
    (sort_slice : List PortRange → List PortRange) (s : List ℕ) (u : List PortRange)
    → Sorts sort_slice
    → parse_port_union sort_slice s ≡ some u
    → All IsProper u × Apart u
unfolding parse_port_union
parse_port_union-All sort_slice s u sorts e =
    elim (Bool-cases (same s (b'a' ∷ b'l' ∷ b'l' ∷ []) || same s (b'*' ∷ []))) [
      | inl y ↦
          (let q : record { start = 0; stop = 65535 } ∷ [] ≡ u = cc (rw y at e) in
            subst (λ v. All IsProper v × Apart v) q (((omega arith, omega arith), tt), (tt, tt)))
      | inr n ↦
          (let (v, p, e₁) =
              bind_some (parse_all (split b',' s)) (λ result. some (normalize sort_slice result)) u
                (rw n at e) in
            let (_, apart) = normalize-Apart sort_slice v sorts in
            let sorted =
              All-Permᴰ (sort_slice v) v (sorts.permutes v) (parse_all-All (split b',' s) v p) in
            let z : normalize sort_slice v ≡ u = cc e₁ in
            subst (λ v. All IsProper v × Apart v) z
              (unfold normalize in merge_all-All (sort_slice v) sorted, apart))
    ]
