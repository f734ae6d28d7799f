-- ===== src/Float/Accuracy.antt =====
-- How near lerp of src/fand/interpolation.c comes to the straight line between the two ends.
use amdgpu_fand.Base.{
  ℕ, ◌+◌, ◌-◌, ◌*◌, ◌/◌, ◌^◌, ◌≤◌, ◌<◌, ◌≡◌, ◌∙◌, ◌>>=◌, refl, sym, arith, some, ltb, inl, inr,
  Bool-cases, ne→==,
}
use amdgpu_fand.Float.{Float, one, fadd, fmul, fdiv, round, round_div, to_ulong, lerp, lerp_inverse}
use amdgpu_fand.Float.Interpolation.{of_ulong-exact, sub_ulong_le, lerp_inverse_bounds, lerp_bounds}
use amdgpu_fand.Float.Round.{round_div-le, le-round_div}
use native.Mathlib.Nat.{
  mul-le-mul_left, div-add-mod, mod-lt, mul-le-mul_right, lt_of_mul-lt-mul_left, one-le-pow,
}

-- Two numbers of units that are at most `u` apart, each times `d`.
abbrev IsNear : ℕ → ℕ → ℕ → ℕ → Type 0
IsNear d u n r = (n ≤ d * r + d * u) × (d * r ≤ n + d * u)

-- A quotient below 2 ^ 24 - 1 units of 2 ^ t is rounded by at most such a unit.
round_div-IsNear_at :
    (t q n d : ℕ)
    → 0 < d
    → q + 1 < 2 ^ 24
    → d * (q * 2 ^ t) ≤ n
    → n ≤ d * ((q + 1) * 2 ^ t)
    → IsNear d (2 ^ t) n (round_div n d)
round_div-IsNear_at t q n d hd hq lo hi =
    let up = mul-le-mul_left d (round_div-le (q + 1) t n d hd hq hi) in
    let down = mul-le-mul_left d (le-round_div q t n d hd (omega arith) lo) in
    (omega (arith, up, down), omega (arith, up, down))

-- The same without naming the quotient.
round_div-IsNear :
    (t n d : ℕ) → 0 < d → n < d * 2 ^ t * (2 ^ 24 - 1) → IsNear d (2 ^ t) n (round_div n d)
round_div-IsNear t n d hd h =
    let p : ℕ = 2 ^ t in
    let unit_pos : 0 < d * p = omega (arith, mul-le-mul_left d (one-le-pow t 2 (omega arith))) in
    let q : ℕ = n / (d * p) in
    let whole = div-add-mod n (d * p) in
    let part = mod-lt n unit_pos in
    let small : q < 2 ^ 24 - 1 = lt_of_mul-lt-mul_left (d * p) (omega (arith, whole, h)) in
    round_div-IsNear_at t q n d hd (omega (arith, small)) (omega (arith, whole))
      (omega (arith, whole, part))

-- A number is less than one away from a fraction with the denominator `d`.
abbrev pub IsWithinOne : ℕ → ℕ → ℕ → Type 0
IsWithinOne v d n = (v * d < n + d) × (n < v * d + d)

-- The bounds of the four roundings put together.
line_bounds :
    (d l w from f g h v : ℕ)
    → 0 < d
    → l ≤ 100
    → IsNear d (2 ^ 126) (w * 2 ^ 149) f
    → IsNear 1 (2 ^ 133) (l * f) g
    → IsNear 1 (2 ^ 133) (from * 2 ^ 149 + g) h
    → 2 * (v * 2 ^ 149) ≤ 2 * h + 2 ^ 149
    → 2 * h ≤ 2 * (v * 2 ^ 149) + 2 ^ 149
    → IsWithinOne v d (from * d + l * w)
line_bounds d l w from f g h v some_width small (f1, f2) (g1, g2) (h1, h2) lo hi =
    let few = mul-le-mul_right d small in
    (
      omega (
        arith,
        few,
        mul-le-mul_left l f2,
        mul-le-mul_left d g2,
        mul-le-mul_left d h2,
        mul-le-mul_left d lo,
      ),
      omega (
        arith,
        few,
        mul-le-mul_left l f1,
        mul-le-mul_left d g1,
        mul-le-mul_left d h1,
        mul-le-mul_left d hi,
      ),
    )

some_injective : {v w : ℕ} → some v ≡ some w → v ≡ w
some_injective h = cc

to_ulong-some : (n : ℕ) {v : ℕ} → to_ulong n ≡ some v → v ≡ n
unfolding to_ulong
to_ulong-some n h = elim (Bool-cases (ltb n (2 ^ 64))) [
  | inl e ↦ some_injective (sym (rw e at h))
  | inr e ↦ cc (rw e at h)
]

-- The fraction before it is rounded.
lerp_inverse-IsNear :
    (a b x : ℕ) {f : Float}
    → a < b
    → a ≤ x
    → x ≤ b
    → b < 2 ^ 24
    → lerp_inverse a b x ≡ some f
    → IsNear (b - a) (2 ^ 126) ((x - a) * 2 ^ 149) f
unfolding lerp_inverse fdiv one
lerp_inverse-IsNear a b x {f} h lo hi hb e =
    let n : ℕ = (x - a) * 2 ^ 149 in
    let d : ℕ = (b - a) * 2 ^ 149 in
    let value : f ≡ round_div (n * 2 ^ 149) d = some_injective (
      sym e
      ∙ rw
          (
            sub_ulong_le a x lo (omega arith),
            sub_ulong_le a b (omega arith) (omega arith),
            of_ulong-exact (x - a) (omega arith),
            of_ulong-exact (b - a) (omega arith),
            ne→== d 0 (omega arith),
          )
          refl) in
    let near = round_div-IsNear 126 (n * 2 ^ 149) d (omega arith) (omega arith) in
    rw value (omega (arith, near), omega (arith, near))

-- The product, the sum and the rounding of lerp.
lerp-value :
    (from to : ℕ) (f : Float) {v : ℕ}
    → from ≤ to
    → to < 2 ^ 24
    → lerp from to f ≡ some v
    → v ≡ round (fadd (from * one) (fmul ((to - from) * one) f))
unfolding lerp
lerp-value from to f rise small e = to_ulong-some _ (
    rw
      (
        sub_ulong_le from to rise (omega arith),
        of_ulong-exact from (omega arith),
        of_ulong-exact (to - from) (omega arith),
      )
      at e)

fmul-IsNear :
    (l : ℕ) (f : Float) → l ≤ 100 → f ≤ one → IsNear 1 (2 ^ 133) (l * f) (fmul (l * one) f)
unfolding fmul one
fmul-IsNear l f small part =
    let product = mul-le-mul_left l part in
    let near =
      round_div-IsNear 133 (l * 2 ^ 149 * f) (2 ^ 149) (omega arith) (omega (arith, product)) in
    (omega (arith, near), omega (arith, near))

fadd-IsNear :
    (from : ℕ) (g : Float)
    → from ≤ 100
    → g ≤ 101 * one
    → IsNear 1 (2 ^ 133) (from * 2 ^ 149 + g) (fadd (from * one) g)
unfolding fadd one
fadd-IsNear from g small part =
    round_div-IsNear 133 (from * 2 ^ 149 + g) 1 (omega arith) (omega arith)

round-near :
    (h : Float)
    → (2 * (round h * 2 ^ 149) ≤ 2 * h + 2 ^ 149) × (2 * h ≤ 2 * (round h * 2 ^ 149) + 2 ^ 149)
unfolding round one
round-near h = (omega arith, omega arith)

product_room :
    (l : ℕ) (f g : Float)
    → l * f ≤ l * one
    → l * one ≤ 100 * one
    → 1 * g ≤ l * f + 1 * 2 ^ 133
    → g ≤ 101 * one
unfolding one
product_room l f g part few near = omega (arith, part, few, near)

pub lerp-IsWithinOne :
    (a b x from to : ℕ) {f : Float} {v : ℕ}
    → a < b
    → a ≤ x
    → x ≤ b
    → b < 2 ^ 24
    → from ≤ to
    → to ≤ 100
    → f ≤ one
    → lerp_inverse a b x ≡ some f
    → lerp from to f ≡ some v
    → IsWithinOne v (b - a) (from * (b - a) + (to - from) * (x - a))
lerp-IsWithinOne a b x from to {f} {v} h lo hi hb rise small part inverse value =
    let l : ℕ = to - from in
    let g : ℕ = fmul (l * one) f in
    let s : ℕ = fadd (from * one) g in
    let product = fmul-IsNear l f (omega arith) part in
    let few : l ≤ 100 = omega arith in
    let room : g ≤ 101 * one =
      product_room l f g (mul-le-mul_left l part) (mul-le-mul_right one few) product.1 in
    let rounded : v ≡ round s = lerp-value from to f rise (omega arith) value in
    let near = round-near s in
    line_bounds (b - a) l (x - a) from f g s v (omega arith) (omega arith)
      (lerp_inverse-IsNear a b x h lo hi hb inverse) product (fadd-IsNear from g (omega arith) room)
      (rw rounded near.0) (rw rounded near.1)

-- For a value x between two different ends, both below 2 ^ 24, and speeds that do not fall and are at most 100:
-- `lerp_inverse` and `lerp`, one after the other, are defined, and what they compute in binary32 differs by less
-- than one from the straight line through the two points at x, in exact arithmetic. It lies between the two speeds.
pub lerp-lerp_inverse :
    (a b x from to : ℕ)
    → a < b
    → a ≤ x
    → x ≤ b
    → b < 2 ^ 24
    → from ≤ to
    → to ≤ 100
    → (v : ℕ) × ((lerp_inverse a b x >>= λ f. lerp from to f) ≡ some v)
      × IsWithinOne v (b - a) (from * (b - a) + (to - from) * (x - a))
      × (from ≤ v)
      × (v ≤ to)
lerp-lerp_inverse a b x from to h lo hi hb rise small =
    let (f, inverse, part) = lerp_inverse_bounds a b x h lo hi hb in
    let (v, value, least, most) = lerp_bounds from to f rise (omega arith) part in
    (
      v,
      rw (inverse, value),
      lerp-IsWithinOne a b x from to h lo hi hb rise small part inverse value,
      least,
      most,
    )
