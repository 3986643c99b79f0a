-- ===== src/PortUnion/Runs.antt =====
-- A sort that does what `sort.Slice` promises, and runs with it.
use hysteria.Common.{
  some, ℕ, ◌≡◌, ◌↔◌, refl, List, [], ◌∷◌, false, if◌then◌else◌, All, arith, Bool-cases, inl, inr,
}
use mathlib.Core.List.{Permᴰ}
use mathlib.Core.List.Permᴰ
use hysteria.PortUnion.{PortRange, less, Sorted, Sorts, normalize, contains, ports}
use hysteria.PortUnion.Merge.{Apart, normalize-Apart}
use hysteria.PortUnion.{merge}
use hysteria.Common.Bytes.{same}
use hysteria.PortUnion.Parse.{
  parse_port_union, parse_all, parse_port_str, parse_range, parse_uint16, parse_digits, split,
  IsProper, parse_port_union-All,
}
use hysteria.PortUnion.Written.{Says}
use hysteria.PortUnion.Accepted.{parse_port_union_iff}
use hysteria.PortUnion.Ports.{Ascending, listed, ports-normalize}

insert : PortRange → List PortRange → List PortRange
insert r [] = r ∷ []
insert r (s ∷ u) = if less s r then s ∷ insert r u else r ∷ s ∷ u

insertion_sort : List PortRange → List PortRange
unfolding insert
insertion_sort [] = []
insertion_sort (r ∷ u) = insert r (insertion_sort u)

insert-Permᴰ : (r : PortRange) (u : List PortRange) → Permᴰ (insert r u) (r ∷ u)
unfolding insert
insert-Permᴰ r [] = Permᴰ.refl (r ∷ [])
insert-Permᴰ r (s ∷ u) = elim (Bool-cases (less s r)) [
  | inl y ↦ rw (y, insert) (Permᴰ.trans (Permᴰ.cons refl (insert-Permᴰ r u)) (Permᴰ.swap refl refl))
  | inr n ↦ rw (n, insert) (Permᴰ.refl (r ∷ s ∷ u))
]

less_trans : (r s t : PortRange) → less s r ≡ false → less t s ≡ false → less t r ≡ false
less_trans r s t h k = ground (arith, h, k)

not_less-All :
    (r s : PortRange) (u : List PortRange)
    → less s r ≡ false
    → All (λ t. less t s ≡ false) u
    → All (λ t. less t r ≡ false) u
not_less-All r s [] h a = tt
not_less-All r s (t ∷ u) h (k, a) = (less_trans r s t h k, not_less-All r s u h a)

insert-All :
    (s r : PortRange) (u : List PortRange)
    → less r s ≡ false
    → All (λ t. less t s ≡ false) u
    → All (λ t. less t s ≡ false) (insert r u)
unfolding insert
insert-All s r [] h a = (h, tt)
insert-All s r (t ∷ u) h (k, a) = elim (Bool-cases (less t r)) [
  | inl y ↦ rw (y, insert) (k, insert-All s r u h a)
  | inr n ↦ rw (n, insert) (h, (k, a))
]

insert-Sorted : (r : PortRange) (u : List PortRange) → Sorted u → Sorted (insert r u)
unfolding insert
insert-Sorted r [] s = (tt, tt)
insert-Sorted r (t ∷ u) (a, s) = elim (Bool-cases (less t r)) [
  | inl y ↦ rw (y, insert) (insert-All t r u (ground (arith, y)) a, insert-Sorted r u s)
  | inr n ↦ rw (n, insert) ((n, not_less-All r t u n a), (a, s))
]

sorts_permutes : (u : List PortRange) → Permᴰ (insertion_sort u) u
unfolding insertion_sort
sorts_permutes [] = Permᴰ.refl []
sorts_permutes (r ∷ u) =
    Permᴰ.trans (insert-Permᴰ r (insertion_sort u)) (Permᴰ.cons refl (sorts_permutes u))

sorts_orders : (u : List PortRange) → Sorted (insertion_sort u)
unfolding insertion_sort
sorts_orders [] = tt
sorts_orders (r ∷ u) = insert-Sorted r (insertion_sort u) (sorts_orders u)

insertion_sort-Sorts : Sorts insertion_sort
insertion_sort-Sorts = record { permutes = sorts_permutes; orders = sorts_orders }

-- 90-100, 1-5, 6-8, 95-200.
abbrev union : List PortRange
union =
    record { start = 90; stop = 100 }
    ∷ record { start = 1; stop = 5 }
    ∷ record { start = 6; stop = 8 }
    ∷ record { start = 95; stop = 200 }
    ∷ []

normalize-Apart_example :
    ((port : ℕ) → contains (normalize insertion_sort union) port ≡ contains union port)
    × Apart (normalize insertion_sort union)
normalize-Apart_example = normalize-Apart insertion_sort union insertion_sort-Sorts

ports-normalize_example :
    Ascending (ports (normalize insertion_sort union))
    × ((port : ℕ) → listed port (ports (normalize insertion_sort union)) ≡ contains union port)
ports-normalize_example = ports-normalize insertion_sort union insertion_sort-Sorts

-- `8-1,5`.
abbrev text : List ℕ
text = b'8' ∷ b'-' ∷ b'1' ∷ b',' ∷ b'5' ∷ []

text_parsed : parse_port_union insertion_sort text ≡ some (record { start = 1; stop = 8 } ∷ [])
unfolding parse_port_union parse_all parse_port_str parse_range parse_uint16 parse_digits split
    normalize merge insertion_sort insert same
text_parsed = refl

parse_port_union-All_run :
    All IsProper (record { start = 1; stop = 8 } ∷ []) × Apart (record { start = 1; stop = 8 } ∷ [])
parse_port_union-All_run =
    parse_port_union-All insertion_sort text (record { start = 1; stop = 8 } ∷ [])
      insertion_sort-Sorts text_parsed

parse_port_union_iff_example :
    (parse_port_union insertion_sort text ≡ some (record { start = 1; stop = 8 } ∷ []))
    ↔ Says insertion_sort text (record { start = 1; stop = 8 } ∷ [])
parse_port_union_iff_example =
    parse_port_union_iff insertion_sort text (record { start = 1; stop = 8 } ∷ [])
