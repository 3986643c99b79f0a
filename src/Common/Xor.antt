-- ===== src/Common/Xor.antt =====
-- Exclusive or: the same number twice changes nothing.
use Prim.Native.Nat.{
  ℕ, zero, suc, ◌+◌, ◌*◌, ◌/◌, ◌%◌, ◌≤◌, ◌<◌, bit_xor, bit_xor-bitwise, digits, differ,
}
use mathlib.Core.Path.{◌≡◌, refl, sym, ap, ap₂, ◌∙◌}
use native.Mathlib.Omega.{arith}

abbrev xor_digits : ℕ → ℕ → ℕ → ℕ
xor_digits n a b = digits (λ b. b) differ n a b

-- More digits to go than there are make no difference.
xor_digits-enough : (n m a b : ℕ) → a ≤ n → a ≤ m → xor_digits n a b ≡ xor_digits m a b
xor_digits-enough zero zero a b h k = refl
xor_digits-enough zero (suc m) zero b h k = refl
xor_digits-enough zero (suc m) (suc a) b h k = absurd (omega arith)
xor_digits-enough (suc n) zero zero b h k = refl
xor_digits-enough (suc n) zero (suc a) b h k = absurd (omega arith)
xor_digits-enough (suc n) (suc m) zero b h k = refl
xor_digits-enough (suc n) (suc m) (suc a) b h k =
    ap (λ x. x * 2 + differ (suc a % 2) (b % 2))
      (xor_digits-enough n m (suc a / 2) (b / 2) (omega arith) (omega arith))

bit_xor-step : (a b : ℕ) → bit_xor a b ≡ bit_xor (a / 2) (b / 2) * 2 + differ (a % 2) (b % 2)
bit_xor-step zero b =
    bit_xor-bitwise zero b
    ∙ (let e : b ≡ b / 2 * 2 + b % 2 = omega arith in e)
    ∙ ap (λ x. x * 2 + b % 2) (sym (bit_xor-bitwise 0 (b / 2)))
bit_xor-step (suc a) b =
    bit_xor-bitwise (suc a) b
    ∙ ap (λ x. x * 2 + differ (suc a % 2) (b % 2))
        (xor_digits-enough a (suc a / 2) (suc a / 2) (b / 2) (omega arith) (omega arith)
          ∙ sym (bit_xor-bitwise (suc a / 2) (b / 2)))

differ-twice : (x y : ℕ) → x < 2 → y < 2 → (differ (differ x y) y ≡ x) × (differ x y < 2)
differ-twice zero zero h k = (refl, omega arith)
differ-twice zero (suc zero) h k = (refl, omega arith)
differ-twice (suc zero) zero h k = (refl, omega arith)
differ-twice (suc zero) (suc zero) h k = (refl, omega arith)
differ-twice zero (suc (suc y)) h k = absurd (omega arith)
differ-twice (suc zero) (suc (suc y)) h k = absurd (omega arith)
differ-twice (suc (suc x)) y h k = absurd (omega arith)

twice_upto : (k a b : ℕ) → a ≤ k → b ≤ k → bit_xor (bit_xor a b) b ≡ a
twice_upto zero a b h l =
    let p : a ≡ 0 = omega arith in
    let q : b ≡ 0 = omega arith in
    let none_set : bit_xor (bit_xor 0 0) 0 ≡ 0 = refl in
    ap₂ (λ x y. bit_xor (bit_xor x y) y) p q ∙ none_set ∙ sym p
twice_upto (suc k) a b h l =
    let (back, small) = differ-twice (a % 2) (b % 2) (omega arith) (omega arith) in
    let x = bit_xor a b in
    let inner = bit_xor (a / 2) (b / 2) in
    let is_x : x ≡ inner * 2 + differ (a % 2) (b % 2) = bit_xor-step a b in
    let high : x / 2 ≡ inner = omega (arith, is_x, small) in
    let low : x % 2 ≡ differ (a % 2) (b % 2) = omega (arith, is_x, small) in
    let rest : bit_xor inner (b / 2) ≡ a / 2 =
      twice_upto k (a / 2) (b / 2) (omega arith) (omega arith) in
    let whole : a / 2 * 2 + a % 2 ≡ a = omega arith in
    bit_xor-step x b
    ∙ ap₂ (λ p q. bit_xor p (b / 2) * 2 + differ q (b % 2)) high low
    ∙ ap₂ (λ p q. p * 2 + q) rest back
    ∙ whole

pub bit_xor-twice : (a b : ℕ) → bit_xor (bit_xor a b) b ≡ a
bit_xor-twice a b = twice_upto (a + b) a b (omega arith) (omega arith)
