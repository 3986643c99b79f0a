-- ===== src/Common/Bits.antt =====
-- Masks of a byte as arithmetic, each by evaluating both sides at every value below the bound.
use Prim.Native.Nat.{ℕ, zero, suc, ◌+◌, ◌*◌, ◌/◌, ◌%◌, ◌<◌, bit_and, bit_or}
use mathlib.Core.Path.{◌≡◌, refl, ap}
use mathlib.Core.Bool.{Bool, true, false}
use native.Mathlib.Omega.{arith}
use hysteria.Common.Tests.{◌==◌, if◌then◌else◌}

module _ (f g : ℕ → ℕ) where
  same_upto : ℕ → Bool
  same_upto zero = true
  same_upto (suc top) = if f top == g top then same_upto top else false

  same_at : (top v : ℕ) → same_upto top ≡ true → v < top → f v ≡ g v
  unfolding same_upto
  same_at zero v table bound = absurd (omega arith)
  same_at (suc top) v table bound = ground (arith, ap f, ap g, same_at top v)

pub bit_or_0x40 : (a : ℕ) → a < 64 → bit_or a 0x40 ≡ 64 + a
unfolding same_upto
bit_or_0x40 a = same_at (λ a. bit_or a 0x40) (λ a. 64 + a) 64 a refl

pub bit_or_0x80 : (a : ℕ) → a < 64 → bit_or a 0x80 ≡ 128 + a
unfolding same_upto
bit_or_0x80 a = same_at (λ a. bit_or a 0x80) (λ a. 128 + a) 64 a refl

pub bit_or_0xc0 : (a : ℕ) → a < 64 → bit_or a 0xc0 ≡ 192 + a
unfolding same_upto
bit_or_0xc0 a = same_at (λ a. bit_or a 0xc0) (λ a. 192 + a) 64 a refl

-- The low half of a byte.
pub bit_and_0x0f : (a : ℕ) → a < 256 → bit_and a 0x0f ≡ a % 16
unfolding same_upto
bit_and_0x0f a = same_at (λ a. bit_and a 0x0f) (λ a. a % 16) 256 a refl

-- A byte of two halves.
pub two_halves : (a : ℕ) → a < 256 → bit_or (a / 16 * 16 % 256) (bit_and (a % 16) 0x0f) ≡ a
unfolding same_upto
two_halves a = same_at (λ a. bit_or (a / 16 * 16 % 256) (bit_and (a % 16) 0x0f)) (λ a. a) 256 a refl

pub bit_and_0xff : (a : ℕ) → a < 256 → bit_and a 0xff ≡ a
unfolding same_upto
bit_and_0xff a = same_at (λ a. bit_and a 0xff) (λ a. a) 256 a refl
