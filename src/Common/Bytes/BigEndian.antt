-- ===== src/Common/Bytes/BigEndian.antt =====
-- `encoding/binary`'s big-endian fields.
use Prim.Native.Nat.{ℕ, ◌+◌, ◌*◌, ◌/◌, ◌%◌, ◌^◌, ◌<◌}
use mathlib.Core.Path.{◌≡◌, ap}
use mathlib.Core.Option.{Option, none, some}
use mathlib.Core.List.{List, [], ◌∷◌, ◌++◌}
use native.Mathlib.Omega.{arith}

-- `PutUint16`: the bytes that it writes.
abbrev pub be16 : ℕ → List ℕ
be16 v = (v / 2 ^ 8 % 256) ∷ (v % 256) ∷ []

-- `PutUint32`
abbrev pub be32 : ℕ → List ℕ
be32 v = (v / 2 ^ 24 % 256) ∷ (v / 2 ^ 16 % 256) ∷ (v / 2 ^ 8 % 256) ∷ (v % 256) ∷ []

-- `Uint16`; `none` is the panic on a slice that is too short.
abbrev pub uint16 : List ℕ → Option ℕ
uint16 [] = none
uint16 (a ∷ []) = none
uint16 (a ∷ b ∷ r) = some (a * 256 + b)

-- `Uint32`
abbrev pub uint32 : List ℕ → Option ℕ
uint32 [] = none
uint32 (a ∷ []) = none
uint32 (a ∷ b ∷ []) = none
uint32 (a ∷ b ∷ c ∷ []) = none
uint32 (a ∷ b ∷ c ∷ d ∷ r) = some (((a * 256 + b) * 256 + c) * 256 + d)

pub uint16-be16 : (v : ℕ) (r : List ℕ) → v < 2 ^ 16 → uint16 (be16 v ++ r) ≡ some v
uint16-be16 v r h = ap some (omega arith)

pub uint32-be32 : (v : ℕ) (r : List ℕ) → v < 2 ^ 32 → uint32 (be32 v ++ r) ≡ some v
uint32-be32 v r h = ap some (omega arith)
