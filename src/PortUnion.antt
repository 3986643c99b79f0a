-- ===== src/PortUnion.antt =====
-- extras/utils/portunion.go: unions of port ranges; the parsing is in Parse.antt. `sort.Slice` of Go's library
-- is the parameter `sort_slice`: `Sorts` says what its documentation promises for the order that
-- `Normalize` gives it.
pub mod Merge
pub mod Ports
pub mod Parse
pub mod Split
pub mod Written
pub mod Accepted
pub mod Runs
use hysteria.Common.{
  ℕ, zero, suc, ◌+◌, ◌-◌, ◌≡◌, List, [], ◌∷◌, ◌++◌, Bool, true, false, ltb, leb, ◌==◌, ◌||◌, ◌&&◌,
  if◌then◌else◌, All,
}
use mathlib.Core.List.{Permᴰ}

-- The ports from `start` to `stop`, both included: the fields `Start` and `End`.
pub record PortRange : Type 0 where
  pub start : ℕ
  pub stop : ℕ

-- The function that `Normalize` sorts by.
abbrev pub less : PortRange → PortRange → Bool
less a b = if a.start == b.start then ltb a.stop b.stop else ltb a.start b.start

-- No element is less than one before it.
abbrev pub Sorted : List PortRange → Type 0
Sorted [] = Unit {0}
Sorted (r ∷ u) = All (λ s. less s r ≡ false) u × Sorted u

pub record Sorts (sort_slice : List PortRange → List PortRange) : Type 0 where
  pub permutes : (u : List PortRange) → Permᴰ (sort_slice u) u
  pub orders : (u : List PortRange) → Sorted (sort_slice u)

-- Whether a range goes into the last one, and what the last one is then.
abbrev pub joins : PortRange → PortRange → Bool
joins last current = leb current.start (last.stop + 1)

abbrev pub joined : PortRange → PortRange → PortRange
joined last current =
    if ltb last.stop current.stop then record last { stop = current.stop } else last

-- The loop of `Normalize`, where `last` is the last element of `normalized`: what it will leave from
-- that element on.
unfoldable pub merge : PortRange → List PortRange → List PortRange
merge last [] = last ∷ []
merge last (current ∷ u) =
    let rest = merge (if joins last current then joined last current else current) u in
    if joins last current then rest else last ∷ rest

abbrev pub merge_all : List PortRange → List PortRange
merge_all [] = []
merge_all (r ∷ u) = merge r u

unfoldable pub normalize : (List PortRange → List PortRange) → List PortRange → List PortRange
unfolding merge
normalize sort_slice u = merge_all (sort_slice u)

unfoldable pub contains : List PortRange → ℕ → Bool
contains [] port = false
contains (r ∷ u) port = if leb r.start port && leb port r.stop then true else contains u port

-- The inner loop of `Ports`, with `n` ports to go.
unfoldable pub ports_from : ℕ → ℕ → List ℕ
ports_from i zero = []
ports_from i (suc n) = i ∷ ports_from (i + 1) n

unfoldable pub ports : List PortRange → List ℕ
unfolding ports_from
ports [] = []
ports (r ∷ u) = ports_from r.start (r.stop + 1 - r.start) ++ ports u
