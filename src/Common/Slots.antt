-- ===== src/Common/Slots.antt =====
-- Slots for the pieces 0 … n-1 of a whole, some of which have come: `got` says which.
use Prim.Native.Nat.{ℕ, zero, suc, ◌+◌, ◌≤◌, ◌<◌}
use mathlib.Core.Path.{◌≡◌, refl, ap, ◌∙◌}
use mathlib.Core.Bool.{Bool, true, false}
use mathlib.Core.Option.{Option, none, some}
use mathlib.Core.List.{List, [], ◌∷◌}
use native.Mathlib.Omega.{arith}
use hysteria.Common.Lists.{length, get_or, get_elem?, set, replicate}

-- How many pieces are there.
abbrev pub ones : List Bool → ℕ
ones [] = 0
ones (true ∷ got) = suc (ones got)
ones (false ∷ got) = ones got

pub ones-le-length : (got : List Bool) → ones got ≤ length got
ones-le-length [] = omega arith
ones-le-length (true ∷ got) = omega (arith, ones-le-length got)
ones-le-length (false ∷ got) = omega (arith, ones-le-length got)

pub ones-set :
    (got : List Bool) (i : ℕ) → get_or got i true ≡ false → ones (set got i true) ≡ suc (ones got)
ones-set [] i h = absurd (cc h)
ones-set (true ∷ got) zero h = absurd (cc h)
ones-set (false ∷ got) zero h = refl
ones-set (true ∷ got) (suc i) h = ap suc (ones-set got i h)
ones-set (false ∷ got) (suc i) h = ones-set got i h

pub in_range : (got : List Bool) (i : ℕ) → get_or got i true ≡ false → i < length got
in_range [] i h = absurd (cc h)
in_range (b ∷ got) zero h = omega arith
in_range (b ∷ got) (suc i) h = omega (arith, in_range got i h)

pub all_there :
    (got : List Bool) (i : ℕ) → ones got ≡ length got → i < length got → get_or got i true ≡ true
all_there [] i e h = absurd (omega arith)
all_there (false ∷ got) i e h = absurd (omega (arith, ones-le-length got))
all_there (true ∷ got) zero e h = refl
all_there (true ∷ got) (suc i) e h = all_there got i (omega arith) (omega arith)

pub ones-replicate : (n : ℕ) → ones (replicate n false) ≡ 0
ones-replicate zero = refl
ones-replicate (suc n) = ones-replicate n

-- Each index is in range and has not come before, in `got` or in the list.
abbrev pub Fresh : List Bool → List ℕ → Type 0
Fresh got [] = Unit {0}
Fresh got (i ∷ order) = (get_or got i true ≡ false) × Fresh (set got i true) order

-- Every index below `n`, once.
abbrev pub EachOnce : ℕ → List ℕ → Type 0
EachOnce n order = Fresh (replicate n false) order × (length order ≡ n)

module _ {A : Type 0} (frag : ℕ → A) where
  -- Slot k of `slots got j` belongs to piece j + k.
  abbrev pub slots : List Bool → ℕ → List (Option A)
  slots [] j = []
  slots (true ∷ got) j = some (frag j) ∷ slots got (j + 1)
  slots (false ∷ got) j = none ∷ slots got (j + 1)

  pub length-slots : (got : List Bool) (j : ℕ) → length (slots got j) ≡ length got
  length-slots [] j = refl
  length-slots (true ∷ got) j = ap suc (length-slots got (j + 1))
  length-slots (false ∷ got) j = ap suc (length-slots got (j + 1))

  pub slots-empty : (n j : ℕ) → slots (replicate n false) j ≡ replicate n none
  slots-empty zero j = refl
  slots-empty (suc n) j = ap (◌∷◌ none) (slots-empty n (j + 1))

  -- Putting piece i where it belongs.
  pub slots-set :
      (got : List Bool) (i j t : ℕ)
      → t ≡ j + i
      → set (slots got j) i (some (frag t)) ≡ slots (set got i true) j
  slots-set [] i j t e = refl
  slots-set (true ∷ got) zero j t e =
      let same : t ≡ j = omega arith in ap (λ k. some (frag k) ∷ slots got (j + 1)) same
  slots-set (false ∷ got) zero j t e =
      let same : t ≡ j = omega arith in ap (λ k. some (frag k) ∷ slots got (j + 1)) same
  slots-set (true ∷ got) (suc i) j t e =
      ap (◌∷◌ (some (frag j))) (slots-set got i (j + 1) t (omega arith))
  slots-set (false ∷ got) (suc i) j t e = ap (◌∷◌ none) (slots-set got i (j + 1) t (omega arith))

  -- What a slot holds.
  pub slot_empty :
      (got : List Bool) (i j : ℕ)
      → get_or got i true ≡ false
      → get_elem? (slots got j) i ≡ some none
  slot_empty [] i j h = absurd (cc h)
  slot_empty (true ∷ got) zero j h = absurd (cc h)
  slot_empty (false ∷ got) zero j h = refl
  slot_empty (true ∷ got) (suc i) j h = slot_empty got i (j + 1) h
  slot_empty (false ∷ got) (suc i) j h = slot_empty got i (j + 1) h

  pub slot_taken :
      (got : List Bool) (i j : ℕ)
      → i < length got
      → get_or got i true ≡ true
      → get_elem? (slots got j) i ≡ some (some (frag (j + i)))
  slot_taken [] i j l h = absurd (omega arith)
  slot_taken (true ∷ got) zero j l h =
      let same : j ≡ j + 0 = omega arith in ap (λ k. some (some (frag k))) same
  slot_taken (false ∷ got) zero j l h = absurd (cc h)
  slot_taken (true ∷ got) (suc i) j l h =
      let same : j + 1 + i ≡ j + suc i = omega arith in
      slot_taken got i (j + 1) (omega arith) h ∙ ap (λ k. some (some (frag k))) same
  slot_taken (false ∷ got) (suc i) j l h =
      let same : j + 1 + i ≡ j + suc i = omega arith in
      slot_taken got i (j + 1) (omega arith) h ∙ ap (λ k. some (some (frag k))) same
