-- ===== src/Fanctrl/Pwm.antt =====
-- `fanctrl_percentage_to_pwm` and `fanctrl_get_speed`, by evaluation over their ranges.
use amdgpu_fand.Base.{
  ℕ, ◌+◌, ◌*◌, ◌/◌, ◌≤◌, ◌≡◌, refl, arith, Option, none, some, Bool, true, false, ◌==◌, all_below,
  all_below_sound, ℤ, pos, negsuc,
}
use amdgpu_fand.Float.{
  one, ulp, fuel, round_with, round_div, of_ulong, fadd, fmul, fdiv, round, to_ulong, sub_ulong,
  lerp, lerp_inverse,
}
use amdgpu_fand.Fanctrl.{percentage_to_pwm, get_speed, pwm_max}

-- 255 * p / 100, rounded to the nearest integer, halves up.
abbrev pub exact_pwm : ℕ → ℕ
exact_pwm p = (510 * p + 100) / 200

is_some_of : ℕ → Option ℕ → Bool
is_some_of v none = false
is_some_of v (some w) = w == v

is_some_of→eq : (v : ℕ) (o : Option ℕ) → is_some_of v o ≡ true → o ≡ some v
unfolding is_some_of
is_some_of→eq v o h = ground arith

percentage_table : all_below 101 (λ p. is_some_of (exact_pwm p) (percentage_to_pwm p)) ≡ true
unfolding all_below is_some_of percentage_to_pwm one ulp fuel round_with round_div of_ulong fadd
    fmul fdiv round to_ulong sub_ulong lerp
percentage_table = refl

pub percentage_to_pwm-exact : (p : ℕ) → p ≤ 100 → percentage_to_pwm p ≡ some (exact_pwm p)
percentage_to_pwm-exact p h =
    is_some_of→eq _ _ (all_below_sound 101 _ p percentage_table (omega arith))

is_speed : ℕ → Option ℤ → Bool
is_speed v none = false
is_speed v (some (pos w)) = w == v
is_speed v (some (negsuc w)) = false

is_speed→eq : (v : ℕ) (o : Option ℤ) → is_speed v o ≡ true → o ≡ some (pos v)
unfolding is_speed
is_speed→eq v o h = ground arith

speed_table : all_below 256 (λ pwm. is_speed (100 * pwm / 255) (get_speed (pos pwm))) ≡ true
unfolding all_below is_speed get_speed one ulp fuel round_with round_div of_ulong fmul fdiv
    sub_ulong lerp_inverse
speed_table = refl

pub get_speed-exact : (pwm : ℕ) → pwm ≤ 255 → get_speed (pos pwm) ≡ some (pos (100 * pwm / 255))
get_speed-exact pwm h = is_speed→eq _ _ (all_below_sound 256 _ pwm speed_table (omega arith))

-- A percentage up to 100 has a PWM value: 255 * p / 100 rounded to nearest, halves up, which is at
-- most 255. Read back from that value the speed is the percentage or one less.
pub get_speed-percentage_to_pwm :
    (p : ℕ)
    → p ≤ 100
    → (q : ℕ) × (percentage_to_pwm p ≡ some (exact_pwm p))
      × (exact_pwm p ≤ pwm_max)
      × (get_speed (pos (exact_pwm p)) ≡ some (pos q))
      × (q ≤ p)
      × (p ≤ q + 1)
get_speed-percentage_to_pwm p h = (
  100 * exact_pwm p / 255,
  percentage_to_pwm-exact p h,
  omega arith,
  get_speed-exact (exact_pwm p) (omega arith),
  omega arith,
  omega arith,
)
