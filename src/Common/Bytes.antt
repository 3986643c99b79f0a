-- ===== src/Common/Bytes.antt =====
-- Go's byte slices: writes with their bounds checks, `copy`, big-endian fields, and readers.
pub mod Writes
pub mod Readers
pub mod BigEndian
use hysteria.Common.Lists.{length, set, All}
use hysteria.Common.Tests.{ltb, leb, ◌==◌, if◌then◌else◌}
use hysteria.Common.Results.Panics.{◌>>=◌}
use Prim.Native.Nat.{ℕ, zero, suc, ◌+◌, ◌-◌, ◌<◌, min}
use mathlib.Core.Option.{Option, none, some}
use mathlib.Core.Path.{◌≡◌, refl}
use mathlib.Core.Logic.{◌↔◌}
use native.Mathlib.Omega.{arith}
use mathlib.Core.Bool.{Bool, true, false, ◌&&◌}
use mathlib.Core.List.{List, [], ◌∷◌}

abbrev pub IsByte : ℕ → Type 0
IsByte b = b < 256

abbrev pub AreBytes : List ℕ → Type 0
AreBytes = All IsByte

-- `b[off] = v`; `none` is Go's panic on an index out of range.
unfoldable pub poke : List ℕ → ℕ → ℕ → Option (List ℕ)
poke b off v = if ltb off (length b) then some (set b off v) else none

-- `b[off] = v0; b[off+1] = v1; …`
unfoldable pub write : List ℕ → ℕ → List ℕ → Option (List ℕ)
unfolding poke
write b off [] = some b
write b off (v ∷ vs) = do b' ← poke b off v; write b' (off + 1) vs

-- The bytes of `b` from `off` on, as far as they go, replaced by those of `src`.
unfoldable pub overlay : List ℕ → ℕ → List ℕ → List ℕ
overlay [] off src = []
overlay (x ∷ b) (suc off) src = x ∷ overlay b off src
overlay (x ∷ b) zero [] = x ∷ b
overlay (x ∷ b) zero (s ∷ src) = s ∷ overlay b zero src

-- `copy(b[off:], src)`: the new `b` and the number of bytes copied.
unfoldable pub copy : List ℕ → ℕ → List ℕ → Option (List ℕ × ℕ)
unfolding overlay
copy b off src =
    if leb off (length b) then some (overlay b off src, min (length src) (length b - off)) else none

-- Equality of Go strings.
unfoldable pub same : List ℕ → List ℕ → Bool
same [] [] = true
same [] (b ∷ bs) = false
same (a ∷ as') [] = false
same (a ∷ as') (b ∷ bs) = a == b && same as' bs

pub same_iff : (s t : List ℕ) → (same s t ≡ true) ↔ (s ≡ t)
unfolding same
same_iff [] [] = (λ h. refl, λ e. refl)
same_iff [] (b ∷ bs) = (λ h. absurd (cc h), λ e. absurd (cc e))
same_iff (a ∷ s) [] = (λ h. absurd (cc h), λ e. absurd (cc e))
same_iff (a ∷ s) (b ∷ bs) =
    (λ h. ground (arith, h, (same_iff s bs).0), λ e. ground (arith, e, (same_iff s bs).1))
