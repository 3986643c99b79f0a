-- ===== src/PortUnion/Merge.antt =====
-- `Normalize` keeps the set of ports, and leaves ranges that are in order and apart.
use hysteria.Common.{
  ℕ, ◌+◌, ◌≤◌, ◌<◌, ◌≡◌, refl, ◌∙◌, ap₂, List, [], ◌∷◌, Bool, true, false, ltb, leb, ◌&&◌,
  if◌then◌else◌, All, arith, Bool-cases, inl, inr,
}
use mathlib.Core.List.{Permᴰ}
use mathlib.Core.List.Permᴰ.{nil, cons, swap, trans}
use hysteria.PortUnion.{
  PortRange, less, Sorted, Sorts, joins, joined, merge, merge_all, normalize, contains,
}

swap_tests :
    (x y z : Bool)
    → (if x then true else if y then true else z) ≡ (if y then true else if x then true else z)
swap_tests true true z = refl
swap_tests true false z = refl
swap_tests false true z = refl
swap_tests false false z = refl

contains-cons :
    {a b : PortRange} (u v : List PortRange) (port : ℕ)
    → a ≡ b
    → contains u port ≡ contains v port
    → contains (a ∷ u) port ≡ contains (b ∷ v) port
unfolding contains
contains-cons u v port e =
    ap₂
      (λ (r : PortRange) (rest : Bool). if leb r.start port && leb port r.stop then true else rest)
      e

contains-swap :
    (a b : PortRange) (u : List PortRange) (port : ℕ)
    → contains (a ∷ b ∷ u) port ≡ contains (b ∷ a ∷ u) port
unfolding contains
contains-swap a b u port =
    swap_tests (leb a.start port && leb port a.stop) (leb b.start port && leb port b.stop)
      (contains u port)

contains-Permᴰ : (u v : List PortRange) (port : ℕ) → Permᴰ u v → contains u port ≡ contains v port
contains-Permᴰ _ _ port nil = refl
contains-Permᴰ (a ∷ u) (b ∷ v) port (cons e p) =
    contains-cons u v port e (contains-Permᴰ u v port p)
contains-Permᴰ (a ∷ b ∷ u) (_ ∷ _ ∷ _) port (swap e f) =
    contains-swap a b u port ∙ contains-cons (a ∷ u) _ port f (contains-cons u u port e refl)
contains-Permᴰ u w port (trans {l₂ = v} p q) = contains-Permᴰ u v port p ∙ contains-Permᴰ v w port q

-- Every range starts at `n` or behind.
abbrev Behind : ℕ → List PortRange → Type 0
Behind n u = All (λ (r : PortRange). n ≤ r.start) u

abbrev InOrder : List PortRange → Type 0
InOrder [] = Unit {0}
InOrder (r ∷ u) = Behind r.start u × InOrder u

Sorted-Behind :
    (r : PortRange) (u : List PortRange) → All (λ s. less s r ≡ false) u → Behind r.start u
Sorted-Behind r [] h = tt
Sorted-Behind r (s ∷ u) (h, hs) = (ground (arith, h), Sorted-Behind r u hs)

Sorted-InOrder : (u : List PortRange) → Sorted u → InOrder u
Sorted-InOrder [] s = tt
Sorted-InOrder (r ∷ u) (h, s) = (Sorted-Behind r u h, Sorted-InOrder u s)

contains-merge :
    (port : ℕ) (last : PortRange) (u : List PortRange)
    → Behind last.start u
    → InOrder u
    → contains (merge last u) port ≡ contains (last ∷ u) port
unfolding merge contains
contains-merge port last [] b o = refl
contains-merge port last (r ∷ u) (h, hs) (b, o) = elim (Bool-cases (joins last r)) [
  | inl y ↦
      rw (y, merge)
        (elim (Bool-cases (ltb last.stop r.stop)) [
          | inl g ↦
              (let ih = contains-merge port (record last { stop = r.stop }) u hs o in
                rw g (ground (arith, ih, y, h, g)))
          | inr g ↦ (let ih = contains-merge port last u hs o in rw g (ground (arith, ih, y, h, g)))
        ])
  | inr n ↦ (let ih = contains-merge port r u b o in rw (n, merge) (ground (arith, ih)))
]

merge-Behind :
    (n : ℕ) (last : PortRange) (u : List PortRange)
    → n ≤ last.start
    → Behind n u
    → Behind n (merge last u)
unfolding merge
merge-Behind n last [] h b = (h, tt)
merge-Behind n last (r ∷ u) h (k, b) = elim (Bool-cases (joins last r)) [
  | inl y ↦ rw (y, merge) (merge-Behind n (joined last r) u (ground (arith, h)) b)
  | inr z ↦ rw (z, merge) (h, merge-Behind n r u k b)
]

-- Between a range and each range behind it there is a port that belongs to neither.
abbrev pub Apart : List PortRange → Type 0
Apart [] = Unit {0}
Apart (r ∷ u) = All (λ (s : PortRange). r.stop + 1 < s.start) u × Apart u

All-Behind :
    (n m : ℕ) (u : List PortRange) → n < m → Behind m u → All (λ (s : PortRange). n < s.start) u
All-Behind n m [] h b = tt
All-Behind n m (r ∷ u) h (k, b) = (omega arith, All-Behind n m u h b)

merge-Apart : (last : PortRange) (u : List PortRange) → InOrder u → Apart (merge last u)
unfolding merge
merge-Apart last [] o = (tt, tt)
merge-Apart last (r ∷ u) (b, o) = elim (Bool-cases (joins last r)) [
  | inl y ↦ rw (y, merge) (merge-Apart (joined last r) u o)
  | inr z ↦
      rw (z, merge)
        (
          All-Behind (last.stop + 1) r.start (merge r u) (ground (arith, z))
              (merge-Behind r.start r u (omega arith) b),
          merge-Apart r u o,
        )
]

merge_all_lem :
    (u : List PortRange)
    → Sorted u
    → ((port : ℕ) → contains (merge_all u) port ≡ contains u port) × Apart (merge_all u)
merge_all_lem [] s = (λ port. refl, tt)
merge_all_lem (r ∷ u) (h, s) = (
  λ port. contains-merge port r u (Sorted-Behind r u h) (Sorted-InOrder u s),
  merge-Apart r u (Sorted-InOrder u s),
)

-- With a sort that permutes and orders, `Normalize` keeps the set of ports, whatever the ranges are, and leaves ranges in ascending order,
-- none of which meets or touches another.
pub normalize-Apart :
    (sort_slice : List PortRange → List PortRange) (u : List PortRange)
    → Sorts sort_slice
    → ((port : ℕ) → contains (normalize sort_slice u) port ≡ contains u port)
      × Apart (normalize sort_slice u)
unfolding normalize
normalize-Apart sort_slice u s =
    let (same, a) = merge_all_lem (sort_slice u) (s.orders u) in
    (λ port. same port ∙ contains-Permᴰ (sort_slice u) u port (s.permutes u), a)
