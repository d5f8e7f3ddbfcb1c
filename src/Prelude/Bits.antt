-- ===== src/Prelude/Bits.antt =====
-- The digits of a bitwise "and" and "or" at variables: what a mask keeps and what it sets.
use Prim.Native.Nat.{
  ℕ, zero, suc, ◌+◌, ◌*◌, ◌/◌, ◌%◌, ◌≤◌, min, max, bit_and, bit_or, digits, bit_and-bitwise,
  bit_or-bitwise, ◌^◌,
}
use mathlib.Core.Path.{◌≡◌, refl, ap, subst, ◌∙◌}
use native.Mathlib.Omega.{arith}

-- Bit `i` of a number, as 0 or 1.
abbrev pub bit : ℕ → ℕ → ℕ
bit zero a = a % 2
bit (suc i) a = bit i (a / 2)

-- How many rounds the digit recursion is given does not matter, once they reach the left operand.
module _ (rest : ℕ → ℕ) (join : ℕ → ℕ → ℕ) where
  rounds_free : (f g x y : ℕ) → x ≤ f → x ≤ g → digits rest join f x y ≡ digits rest join g x y
  rounds_free (suc f) (suc g) (suc x) y hf hg =
      let tail = rounds_free f g (suc x / 2) (y / 2) (omega arith) (omega arith) in
      omega (arith, tail)
  rounds_free (suc f) (suc g) zero y hf hg = refl
  rounds_free (suc f) zero zero y hf hg = refl
  rounds_free zero (suc g) zero y hf hg = refl
  rounds_free zero zero zero y hf hg = refl
  rounds_free zero g (suc x) y hf hg = absurd (omega arith)
  rounds_free (suc f) zero (suc x) y hf hg = absurd (omega arith)

and_step : (a b : ℕ) → bit_and a b ≡ bit_and (a / 2) (b / 2) * 2 + min (a % 2) (b % 2)
and_step (suc x) y =
    let whole = bit_and-bitwise (suc x) y in
    let upper = bit_and-bitwise (suc x / 2) (y / 2) in
    let same =
      rounds_free (λ (n : ℕ). zero) min x (suc x / 2) (suc x / 2) (y / 2) (omega arith)
        (omega arith) in
    omega (arith, whole, upper, same)
and_step zero y = omega (arith, bit_and-bitwise 0 (y / 2), bit_and-bitwise 0 y)

or_step : (a b : ℕ) → bit_or a b ≡ bit_or (a / 2) (b / 2) * 2 + max (a % 2) (b % 2)
or_step (suc x) y =
    let whole = bit_or-bitwise (suc x) y in
    let upper = bit_or-bitwise (suc x / 2) (y / 2) in
    let same =
      rounds_free (λ (n : ℕ). n) max x (suc x / 2) (suc x / 2) (y / 2) (omega arith)
        (omega arith) in
    omega (arith, whole, upper, same)
or_step zero y = omega (arith, bit_or-bitwise 0 (y / 2), bit_or-bitwise 0 y)

-- Each bit of an "and" is the smaller of the two bits, and each bit of an "or" the larger.
pub bit-bit_and : (i a b : ℕ) → bit i (bit_and a b) ≡ min (bit i a) (bit i b)
bit-bit_and zero a b = omega (arith, and_step a b)
bit-bit_and (suc i) a b = ap (bit i) half ∙ bit-bit_and i (a / 2) (b / 2)
  where
    half : bit_and a b / 2 ≡ bit_and (a / 2) (b / 2)
    half = omega (arith, and_step a b)

pub bit-bit_or : (i a b : ℕ) → bit i (bit_or a b) ≡ max (bit i a) (bit i b)
bit-bit_or zero a b = omega (arith, or_step a b)
bit-bit_or (suc i) a b = ap (bit i) half ∙ bit-bit_or i (a / 2) (b / 2)
  where
    half : bit_or a b / 2 ≡ bit_or (a / 2) (b / 2)
    half = omega (arith, or_step a b)

bit_and_zero : (n a : ℕ) → a ≤ n → bit_and a 0 ≡ 0
bit_and_zero n zero h = refl
bit_and_zero zero (suc a) h = absurd (omega arith)
bit_and_zero (suc n) (suc a) h =
    omega (arith, and_step (suc a) 0, bit_and_zero n (suc a / 2) (omega arith))

-- A mask of one bit keeps that bit.
pub bit_and-pow : (i a : ℕ) → bit_and a (2 ^ i) ≡ 2 ^ i * bit i a
bit_and-pow zero a = omega (arith, and_step a 1, bit_and_zero (a / 2) (a / 2) (omega arith))
bit_and-pow (suc i) a =
    subst (λ p. bit_and a p ≡ p * bit i (a / 2)) {x = 2 ^ i * 2} (omega arith)
      (step (2 ^ i) (bit i (a / 2)) (2 ^ i * bit i (a / 2)) refl (bit_and-pow i (a / 2)))
  where
    step : (p b q : ℕ) → q ≡ p * b → bit_and (a / 2) p ≡ q → bit_and a (p * 2) ≡ p * 2 * b
    step p b q e h = grind (arith, and_step a (p * 2), ap (bit_and (a / 2)) half ∙ h)
      where
        half : p * 2 / 2 ≡ p
        half = omega arith
