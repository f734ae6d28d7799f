-- ===== src/Float/Wide.antt =====
-- Values too wide for a significand of 24 bits: their roundings are multiples of a power of two, and
-- `lerp` between ends that fall computes with 2 ^ 64.
use amdgpu_fand.Base.{
  ℕ, zero, suc, ◌+◌, ◌-◌, ◌*◌, ◌/◌, ◌%◌, ◌^◌, ◌≤◌, ◌<◌, ◌≡◌, refl, ap, ◌∙◌, arith, inl, inr, some,
  Bool, true, Bool-cases, ltb, lt→ltb, ne→==, ==→eq, ◌==◌, all_below, all_below_sound,
}
use amdgpu_fand.Float.{
  Float, one, ulp, fuel, round_with, round_div, of_ulong, fadd, fmul, fdiv, round, to_ulong,
  sub_ulong, lerp, lerp_inverse,
}
use amdgpu_fand.Float.Round.{round_div-le, le-round_div, ulp_coarse}
use amdgpu_fand.Float.Interpolation.{of_ulong-exact, sub_ulong_le}
use native.Mathlib.Nat.{pow-suc, one-le-pow}

ulp_wide : (f m n : ℕ) → m ≤ f → 2 ^ 24 * 2 ^ m ≤ n → (c : ℕ) × (ulp f n ≡ c * 2 ^ m)
ulp_wide f zero n h w = (ulp f n, omega arith)
ulp_wide zero (suc m) n h w = absurd (omega arith)
ulp_wide (suc f) (suc m) n h w =
    let double = pow-suc 2 m in
    let (c, e) = ulp_wide f m (n / 2) (omega arith) (omega (arith, double)) in
    (
      c,
      rw (ulp_coarse f n (omega (arith, double, one-le-pow m 2 (omega arith))))
          (omega (arith, e, ap (λ (p : ℕ). c * p) double)),
    )

round_with-multiple : (u n d : ℕ) → (c : ℕ) × (round_with u n d ≡ c * u)
unfolding round_with
round_with-multiple u n d =
    let q = n / (d * u) in
    let r = n % (d * u) in
    elim (Bool-cases (ltb (2 * r) (d * u))) [
      | inl e ↦ (q, rw e)
      | inr e ↦ elim (Bool-cases (ltb (d * u) (2 * r))) [
        | inl e' ↦ (q + 1, rw (e, e'))
        | inr e' ↦ elim (Bool-cases (q % 2 == 0)) [
          | inl even ↦ (q, rw (e, e', even))
          | inr odd ↦ (q + 1, rw (e, e', odd))
        ]
      ]
    ]

-- A value of 205 bits or more is rounded to a multiple of 2 ^ 181.
round_wide : (n : ℕ) → 2 ^ 205 ≤ n → (c : ℕ) × (round_div n 1 ≡ c * 2 ^ 181)
unfolding round_div
round_wide n h =
    let (c, e) = round_with-multiple (ulp fuel (n / 1)) n 1 in
    let (k, e') = ulp_wide fuel 181 (n / 1) (unfold fuel in omega arith) (omega arith) in
    (c * k, e ∙ omega (arith, ap (λ (p : ℕ). c * p) e'))

is_wrapped : ℕ → Bool
is_wrapped k = of_ulong (2 ^ 64 - 1 - k) == 2 ^ 64 * one

wrapped_table : all_below 256 is_wrapped ≡ true
unfolding all_below is_wrapped of_ulong one round_div round_with ulp fuel
wrapped_table = refl

-- A difference that has wrapped is converted to 2 ^ 64.
of_ulong_wrapped : (a b : ℕ) → b < a → a ≤ 255 → of_ulong (sub_ulong b a) ≡ 2 ^ 64 * one
of_ulong_wrapped a b h ha =
    let e : sub_ulong b a ≡ 2 ^ 64 - 1 - (a - b - 1) = unfold sub_ulong in omega arith in
    rw e (
      ==→eq _ _ (
        unfold is_wrapped in
        all_below_sound 256 is_wrapped (a - b - 1) wrapped_table (omega arith)))

-- A fraction strictly between the ends is well inside (0, 1).
pub lerp_inverse_inside :
    (a b x : ℕ)
    → a < x
    → x < b
    → b ≤ 255
    → (f : Float) × (lerp_inverse a b x ≡ some f) × (1 * 2 ^ 141 ≤ f) × (f ≤ (2 ^ 24 - 2) * 2 ^ 125)
unfolding lerp_inverse fdiv one
lerp_inverse_inside a b x lo hi hb =
    let n : ℕ = (x - a) * one in
    let d : ℕ = (b - a) * one in
    (
      round_div (n * one) d,
      rw (
        sub_ulong_le a x (omega arith) (omega arith),
        sub_ulong_le a b (omega arith) (omega arith),
        of_ulong-exact (x - a) (omega arith),
        of_ulong-exact (b - a) (omega arith),
        ne→== d 0 (omega arith),
      ),
      le-round_div 1 141 (n * one) d (omega arith) (omega arith) (omega arith),
      round_div-le (2 ^ 24 - 2) 125 (n * one) d (omega arith) (omega arith) (omega arith),
    )

wide_product :
    (f : Float)
    → 1 * 2 ^ 141 ≤ f
    → f ≤ (2 ^ 24 - 2) * 2 ^ 125
    → (1 * 2 ^ 205 ≤ fmul (2 ^ 64 * one) f) × (fmul (2 ^ 64 * one) f ≤ (2 ^ 24 - 2) * 2 ^ 189)
unfolding fmul one
wide_product f lo hi = (
  le-round_div 1 205 (2 ^ 64 * 2 ^ 149 * f) (2 ^ 149) (omega arith) (omega arith) (omega arith),
  round_div-le (2 ^ 24 - 2) 189 (2 ^ 64 * 2 ^ 149 * f) (2 ^ 149) (omega arith) (omega arith)
      (omega arith),
)

wide_sum :
    (a : ℕ) (y : Float)
    → a ≤ 255
    → 1 * 2 ^ 205 ≤ y
    → y ≤ (2 ^ 24 - 2) * 2 ^ 189
    → (c : ℕ) × (fadd (a * one) y ≡ c * 2 ^ 181) × (c * 2 ^ 181 ≤ (2 ^ 24 - 1) * 2 ^ 189)
unfolding fadd one
wide_sum a y ha lo hi =
    let (c, e) = round_wide (a * 2 ^ 149 + y) (omega arith) in
    let top =
      round_div-le (2 ^ 24 - 1) 189 (a * 2 ^ 149 + y) 1 (omega arith) (omega arith) (omega arith) in
    (c, e, omega (arith, e, top))

wide_round : (c : ℕ) → round (c * 2 ^ 181) ≡ c * 2 ^ 32
unfolding round one
wide_round c = omega arith

-- Between ends that fall the interpolated value is a multiple of 2 ^ 32.
pub lerp_falling :
    (a b : ℕ) (f : Float)
    → b < a
    → a ≤ 255
    → 1 * 2 ^ 141 ≤ f
    → f ≤ (2 ^ 24 - 2) * 2 ^ 125
    → (c : ℕ) × (lerp a b f ≡ some (c * 2 ^ 32))
unfolding lerp to_ulong
lerp_falling a b f h ha lo hi =
    let (low, high) = wide_product f lo hi in
    let (c, e, top) = wide_sum a (fmul (2 ^ 64 * one) f) ha low high in
    (
      c,
      rw (
        of_ulong_wrapped a b h ha,
        of_ulong-exact a (omega arith),
        e,
        wide_round c,
        lt→ltb (c * 2 ^ 32) (2 ^ 64) (omega arith),
      ),
    )
