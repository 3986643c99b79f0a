-- ===== src/PortUnion/Written.antt =====
-- Texts of port unions as they are written, and what `ParsePortUnion` of extras/utils/portunion.go makes of them.
use hysteria.Common.{
  ℕ, ◌+◌, ◌-◌, ◌*◌, ◌≤◌, ◌<◌, ◌≡◌, refl, ap, ◌∙◌, List, [], ◌∷◌, ◌++◌, map, some, true, false, ltb,
  ◌||◌, All, All-append, ◌≢◌, ◌⊎◌, arith, Bool-cases, inl, inr,
}
use Prim.Native.Nat.{min, max}
use hysteria.Common.Bytes.{same}
use hysteria.PortUnion.{PortRange, normalize}
use hysteria.PortUnion.Parse.{
  split, parse_digits, parse_uint16, in_order, parse_range, parse_port_str, parse_all,
  parse_port_union, has_byte,
}
use hysteria.PortUnion.Split.{Lacks, split-Lacks, split-append}

-- The number that decimal digits stand for behind those that make `n`.
abbrev pub value : ℕ → List ℕ → ℕ
value n [] = n
value n (c ∷ s) = value (n * 10 + (c - b'0')) s

abbrev pub IsDigit : ℕ → Type 0
IsDigit c = (b'0' ≤ c) × (c ≤ b'9')

-- Digits, at least one and also with zeros in front, of a number of 16 bits.
abbrev pub IsNumber : List ℕ → Type 0
IsNumber [] = ⊥
IsNumber (c ∷ s) = All IsDigit (c ∷ s) × (value 0 (c ∷ s) ≤ 65535)

-- A part between commas: a number, or two with a dash between them.
pub data Part : Type 0 where
  one : List ℕ → Part
  two : List ℕ → List ℕ → Part

abbrev pub IsWritten : Part → Type 0
IsWritten (one a) = IsNumber a
IsWritten (two a b) = IsNumber a × IsNumber b

abbrev pub text_of : Part → List ℕ
text_of (one a) = a
text_of (two a b) = a ++ (b'-' ∷ b)

-- The ports of a part, where the larger number may stand first.
abbrev pub range_of : Part → PortRange
range_of (one a) = record { start = value 0 a; stop = value 0 a }
range_of (two a b) = record {
  start = min (value 0 a) (value 0 b);
  stop = max (value 0 a) (value 0 b);
}

abbrev pub join_parts : Part → List Part → List ℕ
join_parts p [] = text_of p
join_parts p (q ∷ ps) = text_of p ++ (b',' ∷ join_parts q ps)

value_ge : (n : ℕ) (s : List ℕ) → n ≤ value n s
value_ge n [] = omega arith
value_ge n (c ∷ s) = omega (arith, value_ge (n * 10 + (c - b'0')) s)

parse_digits-value :
    (n : ℕ) (s : List ℕ) → All IsDigit s → value n s ≤ 65535 → parse_digits n s ≡ some (value n s)
unfolding parse_digits
parse_digits-value n [] h k = refl
parse_digits-value n (c ∷ s) ((low, high), h) k =
    let more = value_ge (n * 10 + (c - b'0')) s in
    ground (arith, low, high, more, k, parse_digits-value (n * 10 + (c - b'0')) s h k)

parse_uint16-value : (s : List ℕ) → IsNumber s → parse_uint16 s ≡ some (value 0 s)
unfolding parse_uint16
parse_uint16-value [] h = elim h [ ]
parse_uint16-value (c ∷ s) (h, k) = parse_digits-value 0 (c ∷ s) h k

digits-Lacks : (sep : ℕ) (s : List ℕ) → sep < b'0' → All IsDigit s → Lacks sep s
digits-Lacks sep [] l h = tt
digits-Lacks sep (c ∷ s) l ((low, high), h) = (ground (arith, low, l), digits-Lacks sep s l h)

number-Lacks : (sep : ℕ) (s : List ℕ) → sep < b'0' → IsNumber s → Lacks sep s
number-Lacks sep [] l h = tt
number-Lacks sep (c ∷ s) l (h, k) = digits-Lacks sep (c ∷ s) l h

has_byte-Lacks : (sep : ℕ) (s : List ℕ) → Lacks sep s → has_byte sep s ≡ false
has_byte-Lacks sep [] h = refl
has_byte-Lacks sep (c ∷ s) (n, h) = ground (arith, n, has_byte-Lacks sep s h)

has_byte-append : (sep : ℕ) (s t : List ℕ) → has_byte sep (s ++ (sep ∷ t)) ≡ true
has_byte-append sep [] t = ground arith
has_byte-append sep (c ∷ s) t = ground (arith, has_byte-append sep s t)

pub in_order-min : (x y : ℕ) → in_order x y ≡ record { start = min x y; stop = max x y }
in_order-min x y = elim (Bool-cases (ltb y x)) [
  | inl h ↦
      let low : min x y ≡ y = ground (arith, h) in
      let high : max x y ≡ x = ground (arith, h) in rw (h, low, high) refl
  | inr h ↦
      let low : min x y ≡ x = ground (arith, h) in
      let high : max x y ≡ y = ground (arith, h) in rw (h, low, high) refl
]

parse_port_str-text_of : (p : Part) → IsWritten p → parse_port_str (text_of p) ≡ some (range_of p)
unfolding parse_port_str parse_range
parse_port_str-text_of (one a) h =
    rw (has_byte-Lacks b'-' a (number-Lacks b'-' a (omega arith) h), parse_uint16-value a h) refl
parse_port_str-text_of (two a b) (h, k) =
    rw
      (
        has_byte-append b'-' a b,
        split-append b'-' a b (number-Lacks b'-' a (omega arith) h),
        split-Lacks b'-' b (number-Lacks b'-' b (omega arith) k),
        parse_uint16-value a h,
        parse_uint16-value b k,
      )
      (ap some (in_order-min (value 0 a) (value 0 b)))

text_of-Lacks : (p : Part) → IsWritten p → Lacks b',' (text_of p)
text_of-Lacks (one a) h = number-Lacks b',' a (omega arith) h
text_of-Lacks (two a b) (h, k) =
    All-append (λ c. c ≢ b',') a (b'-' ∷ b) (number-Lacks b',' a (omega arith) h)
      (omega arith, number-Lacks b',' b (omega arith) k)

parse_all-join_parts :
    (p : Part) (ps : List Part)
    → All IsWritten (p ∷ ps)
    → parse_all (split b',' (join_parts p ps)) ≡ some (map range_of (p ∷ ps))
unfolding parse_all
parse_all-join_parts p [] (h, hs) =
    rw (split-Lacks b',' (text_of p) (text_of-Lacks p h), parse_port_str-text_of p h) refl
parse_all-join_parts p (q ∷ ps) (h, hs) =
    rw
      (
        split-append b',' (text_of p) (join_parts q ps) (text_of-Lacks p h),
        parse_port_str-text_of p h,
        parse_all-join_parts q ps hs,
      )
      refl

join_parts-IsDigit :
    (p : Part) (ps : List Part)
    → IsWritten p
    → (c : ℕ) × (s : List ℕ) × (join_parts p ps ≡ c ∷ s) × IsDigit c
join_parts-IsDigit (one []) ps h = elim h [ ]
join_parts-IsDigit (one (c ∷ a)) [] ((d, _), _) = (c, a, refl, d)
join_parts-IsDigit (one (c ∷ a)) (q ∷ ps) ((d, _), _) = (c, _, refl, d)
join_parts-IsDigit (two [] b) ps (h, k) = elim h [ ]
join_parts-IsDigit (two (c ∷ a) b) [] (((d, _), _), k) = (c, _, refl, d)
join_parts-IsDigit (two (c ∷ a) b) (q ∷ ps) (((d, _), _), k) = (c, _, refl, d)

abbrev pub all_word : List ℕ
all_word = b'a' ∷ b'l' ∷ b'l' ∷ []

abbrev pub star : List ℕ
star = b'*' ∷ []

-- Neither word starts with a digit.
not_a_word : (c : ℕ) (s : List ℕ) → IsDigit c → (same (c ∷ s) all_word || same (c ∷ s) star) ≡ false
unfolding same
not_a_word c s (low, high) = ground (arith, low, high)

-- What a text says: every port, or the ranges of its parts.
abbrev pub Says : (List PortRange → List PortRange) → List ℕ → List PortRange → Type 0
Says sort_slice s u =
    (((s ≡ all_word) ⊎ (s ≡ star)) × (u ≡ record { start = 0; stop = 65535 } ∷ []))
    ⊎ ((p : Part) × (ps : List Part) × All IsWritten (p ∷ ps)
        × (s ≡ join_parts p ps)
        × (u ≡ normalize sort_slice (map range_of (p ∷ ps))))

pub parse_port_union-Says :
    (sort_slice : List PortRange → List PortRange) (s : List ℕ) (u : List PortRange)
    → Says sort_slice s u
    → parse_port_union sort_slice s ≡ some u
unfolding parse_port_union same
parse_port_union-Says sort_slice s u (inl (inl w, e)) = rw (w, e) refl
parse_port_union-Says sort_slice s u (inl (inr w, e)) = rw (w, e) refl
parse_port_union-Says sort_slice s u (inr (p, ps, h, e, n)) =
    let (c, t, first, d) = join_parts-IsDigit p ps (h.0) in
    let no_word : (same s all_word || same s star) ≡ false = rw (e ∙ first) (not_a_word c t d) in
    rw no_word (rw (e, parse_all-join_parts p ps h, n) refl)
