-- ===== src/Float/Round.antt =====
-- Rounding to binary32 is monotone against representable values: a float above the exact value is
-- above the rounded one, and the same below.
use amdgpu_fand.Base.{
  ℕ, zero, suc, ◌+◌, ◌*◌, ◌/◌, ◌^◌, ◌≤◌, ◌<◌, ◌≡◌, ap, arith, inl, inr, ◌⊎◌, Bool-cases, ltb,
  ltb→lt,
}
use amdgpu_fand.Float.{ulp, round_with, round_div, fuel}
use native.Mathlib.Numerals.{add-one}
use native.Mathlib.Nat.{
  pow-suc, div-div-eq-div-mul, div-add-mod, mul-le-mul_right, lt_of_mul-lt-mul_right, mul_comm,
  le-div_iff_mul-le, div-le_of_le-mul, le_trans,
}

pub ulp_pos : (f n : ℕ) → 0 < ulp f n
unfolding ulp
ulp_pos zero n = omega arith
ulp_pos (suc f) n = ground (arith, ulp_pos f (n / 2))

scale_suc : (k t : ℕ) → k * 2 ^ suc t ≡ 2 * (k * 2 ^ t)
scale_suc k t = omega (arith, ap (λ (p : ℕ). k * p) (pow-suc 2 t))

ulp_fine : (f n : ℕ) → n < 2 ^ 24 → ulp (suc f) n ≡ 1
unfolding ulp
ulp_fine f n h = ground arith

pub ulp_coarse : (f n : ℕ) → 2 ^ 24 ≤ n → ulp (suc f) n ≡ 2 * ulp f (n / 2)
unfolding ulp
ulp_coarse f n h = ground arith

-- A representable value at or above `n` is a multiple of the spacing at `n`.
pub ulp-dvd : (f k t n : ℕ) → k < 2 ^ 24 → n ≤ k * 2 ^ t → (c : ℕ) × (k * 2 ^ t ≡ c * ulp f n)
ulp-dvd zero k t n hk h = unfold ulp in (k * 2 ^ t, omega arith)
ulp-dvd (suc f) k zero n hk h = (k * 2 ^ 0, rw (ulp_fine f n (omega arith)) (omega arith))
ulp-dvd (suc f) k (suc t) n hk h =
    let (c, e) = ulp-dvd f k t (n / 2) hk (omega (arith, scale_suc k t)) in
    elim (Bool-cases (ltb n (2 ^ 24))) [
      | inl small ↦ (k * 2 ^ suc t, rw (ulp_fine f n (ltb→lt n _ small)) (omega arith))
      | inr large ↦ (c, rw (ulp_coarse f n (ground arith)) (omega (arith, scale_suc k t, e)))
    ]

halve_floor : (n u : ℕ) → n / (2 * u) * (2 * u) ≡ 2 * (n / 2 / u * u)
halve_floor n u = rw (← div-div-eq-div-mul n 2 u) (omega arith)

-- A representable value at or below `n` is at or below `n` cut to the spacing.
pub le-ulp_floor : (f k t n : ℕ) → k < 2 ^ 24 → k * 2 ^ t ≤ n → k * 2 ^ t ≤ n / ulp f n * ulp f n
le-ulp_floor zero k t n hk h = unfold ulp in omega arith
le-ulp_floor (suc f) k zero n hk h = elim (Bool-cases (ltb n (2 ^ 24))) [
  | inl small ↦ rw (ulp_fine f n (ltb→lt n _ small)) (omega arith)
  | inr large ↦
      rw (ulp_coarse f n (ground arith), halve_floor)
        (omega (arith, le-ulp_floor f (2 ^ 23) 0 (n / 2) (omega arith) (ground arith)))
]
le-ulp_floor (suc f) k (suc t) n hk h = elim (Bool-cases (ltb n (2 ^ 24))) [
  | inl small ↦ rw (ulp_fine f n (ltb→lt n _ small)) (omega arith)
  | inr large ↦
      let below = le-ulp_floor f k t (n / 2) hk (omega (arith, scale_suc k t)) in
      rw (ulp_coarse f n (ground arith), halve_floor) (omega (arith, scale_suc k t, below))
]

-- The quotient is cut, or raised by one unit when it is not exact.
round_with-cases :
    (u n d : ℕ)
    → 0 < d * u
    → (round_with u n d ≡ n / (d * u) * u)
      ⊎ (round_with u n d ≡ (n / (d * u) + 1) * u) × (n / (d * u) * (d * u) < n)
unfolding round_with
round_with-cases u n d h = ground (arith, div-add-mod n (d * u))

round_with-le : (u n d c : ℕ) → 0 < d * u → n ≤ c * (d * u) → round_with u n d ≤ c * u
round_with-le u n d c hd h = elim (round_with-cases u n d hd) [
  | inl e ↦ rw e (mul-le-mul_right u (div-le_of_le-mul (d * u) (rw (mul_comm (d * u) c) h)))
  | inr (e, exact) ↦
      rw e (mul-le-mul_right u (rw add-one (lt_of_mul-lt-mul_right (d * u) (omega arith))))
]

le-round_with : (u n d : ℕ) → 0 < d * u → n / (d * u) * u ≤ round_with u n d
le-round_with u n d hd = elim (round_with-cases u n d hd) [
  | inl e ↦ omega (arith, e)
  | inr (e, exact) ↦ omega (arith, e)
]

scaled_pos : (f n d : ℕ) → 0 < d → 0 < d * ulp f n
scaled_pos f n d h = grind (arith, ulp_pos f n)

-- A float at or above n / d is at or above the rounded quotient.
pub round_div-le :
    (k t n d : ℕ) → 0 < d → k < 2 ^ 24 → n ≤ d * (k * 2 ^ t) → round_div n d ≤ k * 2 ^ t
unfolding round_div
round_div-le k t n d hd hk h =
    let u = ulp fuel (n / d) in
    let (c, e) = ulp-dvd fuel k t (n / d) hk (div-le_of_le-mul d h) in
    rw e (
      round_with-le u n d c (scaled_pos fuel (n / d) d hd) (omega (arith, ap (λ (v : ℕ). d * v) e)))

-- A float at or below n / d is at or below the rounded quotient.
pub le-round_div :
    (k t n d : ℕ) → 0 < d → k < 2 ^ 24 → d * (k * 2 ^ t) ≤ n → k * 2 ^ t ≤ round_div n d
unfolding round_div
le-round_div k t n d hd hk h =
    let u = ulp fuel (n / d) in
    le_trans
      (le-ulp_floor fuel k t (n / d) hk ((le-div_iff_mul-le hd).1 (rw (mul_comm (k * 2 ^ t) d) h)))
      (rw div-div-eq-div-mul (le-round_with u n d (scaled_pos fuel (n / d) d hd)))
