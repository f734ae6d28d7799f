-- ===== src/Float/Interpolation.antt =====
-- What src/fand/interpolation.c computes on the small numbers that the daemon gives it: exact
-- conversions, fractions up to one, and interpolated values between the two ends.
use amdgpu_fand.Base.{ℕ, ◌+◌, ◌-◌, ◌*◌, ◌^◌, ◌≤◌, ◌<◌, ◌≡◌, ap, arith, some, lt→ltb, ne→==}
use amdgpu_fand.Float.{
  Float, one, of_ulong, fadd, fmul, fdiv, round, round_div, to_ulong, sub_ulong, lerp, lerp_inverse,
}
use amdgpu_fand.Float.Round.{round_div-le, le-round_div}
use native.Mathlib.Nat.{le_antisymm, mul-le-mul_left}

-- A quotient that is representable is not changed.
round_div-exact :
    (k n d : ℕ) → 0 < d → k < 2 ^ 24 → n ≡ d * (k * 2 ^ 149) → round_div n d ≡ k * 2 ^ 149
round_div-exact k n d hd hk h =
    le_antisymm (round_div-le k 149 n d hd hk (omega (arith, h)))
      (le-round_div k 149 n d hd hk (omega (arith, h)))

pub of_ulong-exact : (n : ℕ) → n < 2 ^ 24 → of_ulong n ≡ n * one
unfolding of_ulong one
of_ulong-exact n h = round_div-exact n (n * 2 ^ 149) 1 (omega arith) h (omega arith)

pub sub_ulong_le : (a b : ℕ) → a ≤ b → b < 2 ^ 64 → sub_ulong b a ≡ b - a
unfolding sub_ulong
sub_ulong_le a b h hb = omega arith

fmul-le : (n : ℕ) (x : Float) → n < 2 ^ 24 → x ≤ one → fmul (n * one) x ≤ n * one
unfolding fmul one
fmul-le n x hn hx =
    round_div-le n 149 (n * 2 ^ 149 * x) (2 ^ 149) (omega arith) hn
      (omega (arith, mul-le-mul_left (n * 2 ^ 149) hx))

fadd_bounds :
    (n b : ℕ) (y : Float)
    → n ≤ b
    → b < 2 ^ 24
    → y ≤ (b - n) * one
    → (n * one ≤ fadd (n * one) y) × (fadd (n * one) y ≤ b * one)
unfolding fadd one
fadd_bounds n b y h hb hy = (
  le-round_div n 149 (n * 2 ^ 149 + y) 1 (omega arith) (omega arith) (omega arith),
  round_div-le b 149 (n * 2 ^ 149 + y) 1 (omega arith) hb (omega arith),
)

round_bounds : (a b : ℕ) (y : Float) → a * one ≤ y → y ≤ b * one → (a ≤ round y) × (round y ≤ b)
unfolding round one
round_bounds a b y lo hi = omega arith

-- The interpolated value lies between the ends, for every fraction up to one.
pub lerp_bounds :
    (a b : ℕ) (x : Float)
    → a ≤ b
    → b < 2 ^ 24
    → x ≤ one
    → (v : ℕ) × (lerp a b x ≡ some v) × (a ≤ v) × (v ≤ b)
unfolding lerp to_ulong
lerp_bounds a b x h hb hx =
    let y : Float = fmul ((b - a) * one) x in
    let sum = fadd_bounds a b y h hb (fmul-le (b - a) x (omega arith) hx) in
    let v : ℕ = round (fadd (a * one) y) in
    let (lo, hi) = round_bounds a b (fadd (a * one) y) sum.0 sum.1 in
    (
      v,
      rw (
        sub_ulong_le a b h (omega arith),
        of_ulong-exact a (omega arith),
        of_ulong-exact (b - a) (omega arith),
        lt→ltb v (2 ^ 64) (omega arith),
      ),
      lo,
      hi,
    )

-- The fraction of a value between the ends is defined and at most one.
pub lerp_inverse_bounds :
    (a b x : ℕ)
    → a < b
    → a ≤ x
    → x ≤ b
    → b < 2 ^ 24
    → (f : Float) × (lerp_inverse a b x ≡ some f) × (f ≤ one)
unfolding lerp_inverse fdiv one
lerp_inverse_bounds a b x h lo hi hb =
    let n : ℕ = (x - a) * one in
    let d : ℕ = (b - a) * one in
    (
      round_div (n * one) d,
      rw (
        sub_ulong_le a x lo (omega arith),
        sub_ulong_le a b (omega arith) (omega arith),
        of_ulong-exact (x - a) (omega arith),
        of_ulong-exact (b - a) (omega arith),
        ne→== d 0 (omega arith),
      ),
      round_div-le 1 149 (n * one) d (omega arith) (omega arith) (omega arith),
    )

-- At the upper end the fraction is exactly one.
pub lerp_inverse_top : (a b : ℕ) → a < b → b < 2 ^ 24 → lerp_inverse a b b ≡ some one
unfolding lerp_inverse fdiv one
lerp_inverse_top a b h hb =
    let d : ℕ = (b - a) * one in
    rw
      (
        sub_ulong_le a b (omega arith) (omega arith),
        of_ulong-exact (b - a) (omega arith),
        ne→== d 0 (omega arith),
      )
      (ap some (round_div-exact 1 (d * one) d (omega arith) (omega arith) (omega arith)))

fmul-one : (n : ℕ) → n < 2 ^ 24 → fmul (n * one) one ≡ n * one
unfolding fmul one
fmul-one n h = round_div-exact n (n * 2 ^ 149 * 2 ^ 149) (2 ^ 149) (omega arith) h (omega arith)

fadd-exact : (a b : ℕ) → a ≤ b → b < 2 ^ 24 → fadd (a * one) ((b - a) * one) ≡ b * one
unfolding fadd one
fadd-exact a b h hb =
    round_div-exact b (a * 2 ^ 149 + (b - a) * 2 ^ 149) 1 (omega arith) hb (omega arith)

round-exact : (n : ℕ) → round (n * one) ≡ n
unfolding round one
round-exact n = omega arith

-- The fraction one gives the upper end.
pub lerp-one : (a b : ℕ) → a ≤ b → b < 2 ^ 24 → lerp a b one ≡ some b
unfolding lerp to_ulong
lerp-one a b h hb = rw (
  sub_ulong_le a b h (omega arith),
  of_ulong-exact a (omega arith),
  of_ulong-exact (b - a) (omega arith),
  fmul-one (b - a) (omega arith),
  fadd-exact a b h hb,
  round-exact b,
  lt→ltb b (2 ^ 64) (omega arith),
)
