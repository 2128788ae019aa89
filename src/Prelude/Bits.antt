-- ===== src/Prelude/Bits.antt =====
-- `&` with a small mask, by the low digits of the other number.
use Prim.Native.Nat.{ℕ, zero, suc, ◌+◌, ◌*◌, ◌/◌, ◌%◌, ◌≤◌, min, bit_and, digits, bit_and-bitwise}
use mathlib.Core.Path.{◌≡◌, refl}
use native.Mathlib.Omega.{arith}

-- The digits of `&`, with `n` to go.
abbrev masked : ℕ → ℕ → ℕ → ℕ
masked n a m = digits (λ _. zero) min n a m

abbrev fewer : ℕ → ℕ
fewer zero = zero
fewer (suc n) = n

halved : (n a : ℕ) → a ≤ n → a / 2 ≤ fewer n
halved zero a h = omega arith
halved (suc n) a h = omega arith

masked-of_zero : (n m : ℕ) → masked n 0 m ≡ 0
masked-of_zero zero m = refl
masked-of_zero (suc n) m = refl

-- The lowest digit, where enough are to go.
masked_lowest :
    (n a m : ℕ) → a ≤ n → masked n a m ≡ masked (fewer n) (a / 2) (m / 2) * 2 + min (a % 2) (m % 2)
masked_lowest zero zero m h = omega arith
masked_lowest zero (suc a) m h = absurd (omega arith)
masked_lowest (suc n) zero m h = omega (arith, masked-of_zero n (m / 2))
masked_lowest (suc n) (suc a) m h = refl

masked-zero : (n a : ℕ) → a ≤ n → masked n a 0 ≡ 0
masked-zero zero a h = refl
masked-zero (suc n) a h =
    omega (arith, masked_lowest (suc n) a 0 h, masked-zero n (a / 2) (omega arith))

-- With a mask of three digits.
pub bit_and_low :
    (a m : ℕ)
    → m ≤ 7
    → bit_and a m
      ≡ min (a % 2) (m % 2) + min (a / 2 % 2) (m / 2 % 2) * 2 + min (a / 4 % 2) (m / 4 % 2) * 4
bit_and_low a m h = omega (
  arith,
  bit_and-bitwise a m,
  masked_lowest a a m (omega arith),
  masked_lowest (fewer a) (a / 2) (m / 2) (halved a a (omega arith)),
  masked_lowest (fewer (fewer a)) (a / 2 / 2) (m / 2 / 2) twice,
  masked_last,
)
  where
    twice : a / 2 / 2 ≤ fewer (fewer a)
    twice = halved (fewer a) (a / 2) (halved a a (omega arith))

    masked_last : masked (fewer (fewer (fewer a))) (a / 2 / 2 / 2) (m / 2 / 2 / 2) ≡ 0
    masked_last =
        let none_left : m / 2 / 2 / 2 ≡ 0 = omega arith in
        rw none_left (
          masked-zero (fewer (fewer (fewer a))) (a / 2 / 2 / 2)
            (halved (fewer (fewer a)) (a / 2 / 2) twice))
