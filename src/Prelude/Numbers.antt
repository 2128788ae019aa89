-- ===== src/Prelude/Numbers.antt =====
-- What the Rust standard library makes of bytes: numbers by `parse` and `from_str_radix`, `trim_ascii`, and
-- the check of `str::from_utf8`.
use Prim.Native.Nat.{ℕ, zero, suc, ◌+◌, ◌-◌, ◌*◌, ◌^◌, ◌≤◌, ◌<◌}
use mathlib.Core.Path.{◌≡◌}
use mathlib.Core.Logic.{inl, inr}
use native.Mathlib.Omega.{arith}
use mathlib.Core.Bool.{Bool, true, false, ◌&&◌, ◌||◌}
use mathlib.Core.List.{[], ◌∷◌, reverse}
use mathlib.Core.Option.{Option, none, some}
use cargo_capslock.Prelude.Tests.{Option-cases, ltb, leb, ◌==◌, if◌then◌else◌}
use cargo_capslock.Prelude.Bytes.{Text}

-- `u8::is_ascii_whitespace`
abbrev pub is_space : ℕ → Bool
is_space c = c == b' ' || c == 9 || c == 10 || c == 12 || c == 13

abbrev pub trim_start : Text → Text
trim_start [] = []
trim_start (c ∷ s) = let rest = trim_start s in if is_space c then rest else c ∷ s

-- `trim_ascii`
unfoldable pub trim_ascii : Text → Text
trim_ascii s = reverse (trim_start (reverse (trim_start s)))

-- Digits below the radix (which is at most ten), with no bound on the number.
abbrev pub digits_from : ℕ → ℕ → Text → Option ℕ
digits_from radix n [] = some n
digits_from radix n (c ∷ s) =
    let rest = digits_from radix (n * radix + (c - b'0')) s in
    if leb b'0' c && ltb c (b'0' + radix) then rest else none

-- One digit at least, and a number that is at most the limit.
abbrev pub bounded : ℕ → Option ℕ → Option ℕ
bounded limit none = none
bounded limit (some n) = if leb n limit then some n else none

abbrev pub digits : ℕ → ℕ → Text → Option ℕ
digits radix limit [] = none
digits radix limit (c ∷ s) = bounded limit (digits_from radix 0 (c ∷ s))

-- `u64::from_str`: a plus sign is accepted.
unfoldable pub parse_u64 : Text → Option ℕ
parse_u64 [] = none
parse_u64 (c ∷ s) = if c == b'+' then digits 10 (2 ^ 64 - 1) s else digits 10 (2 ^ 64 - 1) (c ∷ s)

-- A negative number as its 32 bits.
abbrev negative : Option ℕ → Option ℕ
negative none = none
negative (some zero) = some 0
negative (some (suc n)) = some (2 ^ 32 - suc n)

-- `i32::from_str_radix(_, 8)`, the number as its 32 bits.
unfoldable pub parse_octal : Text → Option ℕ
parse_octal [] = none
parse_octal (c ∷ s) =
    if c == b'+'
    then digits 8 (2 ^ 31 - 1) s
    else if c == b'-'
    then negative (digits 8 (2 ^ 31) s)
    else digits 8 (2 ^ 31 - 1) (c ∷ s)

abbrev within_range : ℕ → ℕ → ℕ → Bool
within_range lo hi c = leb lo c && leb c hi

-- How many bytes follow the first byte of a character, and the range of the first of them.
abbrev follow : ℕ → Option (ℕ × ℕ × ℕ)
follow c =
    if ltb c 0x80
    then some (0, 0, 0)
    else if within_range 0xC2 0xDF c
    then some (1, 0x80, 0xBF)
    else if c == 0xE0
    then some (2, 0xA0, 0xBF)
    else if c == 0xED
    then some (2, 0x80, 0x9F)
    else if within_range 0xE1 0xEF c
    then some (2, 0x80, 0xBF)
    else if c == 0xF0
    then some (3, 0x90, 0xBF)
    else if within_range 0xF1 0xF3 c
    then some (3, 0x80, 0xBF)
    else if c == 0xF4
    then some (3, 0x80, 0x8F)
    else none

-- The state is how many bytes of the character are to come, and the range of the next one.
abbrev utf8_from : ℕ × ℕ × ℕ → Text → Bool
utf8_from (zero, _, _) [] = true
utf8_from (suc _, _, _) [] = false
utf8_from (zero, _, _) (c ∷ s) = elim (follow c) [ none ↦ false | some next ↦ utf8_from next s ]
utf8_from (suc n, lo, hi) (c ∷ s) = within_range lo hi c && utf8_from (n, 0x80, 0xBF) s

-- `str::from_utf8` accepts the bytes.
unfoldable pub is_utf8 : Text → Bool
is_utf8 s = utf8_from (0, 0, 0) s

-- Numbers stay in their ranges.
digits-bound : (radix limit : ℕ) (s : Text) (n : ℕ) → digits radix limit s ≡ some n → n ≤ limit
digits-bound radix limit [] n h = cc
digits-bound radix limit (c ∷ s) n h = elim (Option-cases (digits_from radix 0 (c ∷ s))) [
  | inl e ↦ ground arith
  | inr (m, e) ↦ ground arith
]

pub parse_u64-bound : (s : Text) (n : ℕ) → parse_u64 s ≡ some n → n < 2 ^ 64
unfolding parse_u64
parse_u64-bound [] n h = cc
parse_u64-bound (c ∷ s) n h =
    ground (arith, digits-bound 10 (2 ^ 64 - 1) s n, digits-bound 10 (2 ^ 64 - 1) (c ∷ s) n)

negative-bound :
    (o : Option ℕ) (n : ℕ) → ((m : ℕ) → o ≡ some m → m ≤ 2 ^ 31) → negative o ≡ some n → n < 2 ^ 32
negative-bound none n b h = cc
negative-bound (some zero) n b h = ground arith
negative-bound (some (suc m)) n b h = ground (arith, b (suc m))

pub parse_octal-bound : (s : Text) (n : ℕ) → parse_octal s ≡ some n → n < 2 ^ 32
unfolding parse_octal
parse_octal-bound [] n h = cc
parse_octal-bound (c ∷ s) n h = ground (
  arith,
  digits-bound 8 (2 ^ 31 - 1) s n,
  negative-bound (digits 8 (2 ^ 31) s) n (digits-bound 8 (2 ^ 31) s),
  digits-bound 8 (2 ^ 31 - 1) (c ∷ s) n,
)
