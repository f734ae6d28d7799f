-- ===== src/Float.antt =====
-- The binary32 arithmetic that src/fand/interpolation.c and src/fand/fanctrl.c use, exactly, and the
-- two functions of src/fand/interpolation.c. The code makes no negative float: a value is the number
-- of its units of 2 ^ -149, the smallest positive binary32. Results are rounded to a significand of
-- 24 bits, ties to even. A value stays below 2 ^ 65 in the code, so none overflows to infinity.
pub mod Round
pub mod Interpolation
pub mod Wide
pub mod Accuracy
use amdgpu_fand.Base.{
  ℕ, zero, suc, ◌+◌, ◌-◌, ◌*◌, ◌/◌, ◌%◌, ◌^◌, Option, none, some, ◌>>=◌, ltb, ◌==◌, if◌then◌else◌,
}

abbrev pub Float : Type 0
Float = ℕ

-- The float 1, in units.
unfoldable pub one : Float
one = 2 ^ 149

-- The spacing of the floats at `n` units: the smallest power of two with n / ulp < 2 ^ 24.
unfoldable pub ulp : ℕ → ℕ → ℕ
ulp zero n = 1
ulp (suc fuel) n = let finer = ulp fuel (n / 2) in if ltb n (2 ^ 24) then 1 else 2 * finer

-- Values have less than 300 bits: 149 below the point, 65 above, and a product of two significands.
unfoldable pub fuel : ℕ
fuel = 512

-- The float nearest to n / d units, the even one of two that are as near.
unfoldable pub round_with : ℕ → ℕ → ℕ → Float
round_with u n d =
    let q = n / (d * u) in
    let r = n % (d * u) in
    if ltb (2 * r) (d * u)
    then q * u
    else if ltb (d * u) (2 * r)
    then (q + 1) * u
    else if q % 2 == 0
    then q * u
    else (q + 1) * u

unfoldable pub round_div : ℕ → ℕ → Float
round_div n d = round_with (ulp fuel (n / d)) n d

-- The conversion of an `unsigned long`.
unfoldable pub of_ulong : ℕ → Float
of_ulong n = round_div (n * one) 1

unfoldable pub fadd : Float → Float → Float
fadd x y = round_div (x + y) 1

unfoldable pub fmul : Float → Float → Float
fmul x y = round_div (x * y) one

-- Division by zero gives an infinity or NaN, which is no value of `Float`.
unfoldable pub fdiv : Float → Float → Option Float
fdiv x y = if y == 0 then none else some (round_div (x * one) y)

-- `round` of math.h, to the nearest integer with halves away from zero.
unfoldable pub round : Float → ℕ
round x = (2 * x + one) / (2 * one)

-- The conversion to `unsigned long` is undefined from 2 ^ 64 on.
unfoldable pub to_ulong : ℕ → Option ℕ
to_ulong n = if ltb n (2 ^ 64) then some n else none

-- `unsigned long` subtraction.
unfoldable pub sub_ulong : ℕ → ℕ → ℕ
sub_ulong a b = (a + 2 ^ 64 - b) % 2 ^ 64

unfoldable pub lerp_inverse : ℕ → ℕ → ℕ → Option Float
lerp_inverse a b x = fdiv (of_ulong (sub_ulong x a)) (of_ulong (sub_ulong b a))

unfoldable pub lerp : ℕ → ℕ → Float → Option ℕ
lerp a b x = to_ulong (round (fadd (of_ulong a) (fmul (of_ulong (sub_ulong b a)) x)))
