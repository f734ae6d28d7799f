-- ===== src/Fanctrl/Tests.antt =====
-- Tests of the fan curve on the matrix of src/test/fanctrl_test.c's kind: 20 % at 50 degrees, 50 % at 60,
-- 100 % at 80.
use amdgpu_fand.Base.{
  ℕ, zero, suc, ◌+◌, ◌*◌, ◌/◌, ◌≤◌, ◌<◌, ◌≡◌, ◌>>=◌, refl, arith, List, [], ◌∷◌, Option, none, some,
  true, false, get_or, All, length, ℤ, pos, negsuc, replicate,
}
use mathlib.Core.List.{map}
use amdgpu_fand.Float.{
  one, ulp, fuel, round_with, round_div, of_ulong, fadd, fmul, fdiv, round, to_ulong, sub_ulong,
  lerp, lerp_inverse,
}
use amdgpu_fand.Fanctrl.{
  FandConfig, FanctrlMatrix, Fanctrl, Adjusted, percentage_to_pwm, get_speed, copy_rows, set_matrix,
  configure, get_temp, find_segment, segment_point, curve_point, holds_back, held_speed,
  ulong_of_int, write_pwm, write_speed, settle, adjust_at, adjust, pwm_max,
}
use amdgpu_fand.Float.Accuracy.{IsWithinOne, lerp-lerp_inverse}
use amdgpu_fand.Fanctrl.Pwm.{exact_pwm, get_speed-percentage_to_pwm}
use amdgpu_fand.Fanctrl.Curve.{IsCurve, CurvePoint}
use amdgpu_fand.Fanctrl.Inv.{IsValid, IsConfig, configure-IsCurve}
use amdgpu_fand.Fanctrl.Adjust.{Adjustment, adjust-Adjustment}
use amdgpu_fand.Fanctrl.Hysteresis.{
  run, Wrote, run_safe, IsSorted, held_call, run_held, adjust_reached,
}
use amdgpu_fand.Fanctrl.Falling.{adjust_falling}

abbrev accepted : ℕ → ℤ
accepted pwm = pos 0

abbrev config : FandConfig
config = record {
  throttle = true;
  matrix_rows = 3;
  hysteresis = 3;
  interval = 2;
  matrix = 50 ∷ 20 ∷ 60 ∷ 50 ∷ 80 ∷ 100 ∷ [];
}

abbrev curve : FanctrlMatrix
curve = record {
  rows = 3;
  temps = 50 ∷ 60 ∷ 80 ∷ replicate 13 0;
  speeds = 20 ∷ 50 ∷ 100 ∷ replicate 13 0;
}

-- Row 1, 60 degrees, is in force.
abbrev at_60 : Fanctrl
at_60 = record { matrix = curve; hysteresis = 3; current_threshold = pos 1; throttle = true }

abbrev fresh : Fanctrl
fresh = record {
  matrix = record { rows = 0; temps = replicate 16 0; speeds = replicate 16 0 };
  hysteresis = 0;
  current_threshold = negsuc 0;
  throttle = false;
}

-- The speeds fall from 60 % to 30 %.
abbrev falling : Fanctrl
falling = record {
  matrix = record { rows = 2; temps = 50 ∷ 60 ∷ replicate 14 0; speeds = 60 ∷ 30 ∷ replicate 14 0 };
  hysteresis = 0;
  current_threshold = negsuc 0;
  throttle = false;
}

-- A predicate of a row holds for three rows.
below_3 : (P : ℕ → Type 0) → P 0 → P 1 → P 2 → (i : ℕ) → i < 3 → P i
below_3 P a b c zero h = a
below_3 P a b c (suc zero) h = b
below_3 P a b c (suc (suc zero)) h = c
below_3 P a b c (suc (suc (suc i))) h = absurd (omega arith)

below_2 : (P : ℕ → Type 0) → P 0 → P 1 → (i : ℕ) → i + 1 < 3 → P i
below_2 P a b zero h = a
below_2 P a b (suc zero) h = b
below_2 P a b (suc (suc i)) h = absurd (omega arith)

curve-IsCurve : IsCurve curve
curve-IsCurve = record {
  some_row = omega arith;
  room = omega arith;
  temp_max = below_3 (λ i. get_or curve.temps i 0 ≤ 255) (omega arith) (omega arith) (omega arith);
  speed_max =
      below_3 (λ i. get_or curve.speeds i 0 ≤ 100) (omega arith) (omega arith) (omega arith);
  rising =
      below_2 (λ i. get_or curve.speeds i 0 ≤ get_or curve.speeds (i + 1) 0) (omega arith)
        (omega arith);
}

config-IsConfig : IsConfig config
config-IsConfig = record {
  some_row = omega arith;
  room = omega arith;
  temp_max =
      below_3 (λ i. get_or config.matrix (2 * i) 0 ≤ 255) (omega arith) (omega arith) (omega arith);
  speed_max =
      below_3 (λ i. get_or config.matrix (2 * i + 1) 0 ≤ 100) (omega arith) (omega arith)
        (omega arith);
  rising =
      below_2 (λ i. get_or config.matrix (2 * i + 1) 0 ≤ get_or config.matrix (2 * (i + 1) + 1) 0)
        (omega arith) (omega arith);
}

at_60-IsValid : IsValid at_60
at_60-IsValid = record {
  rows_max = omega arith;
  temps_room = refl;
  speeds_room = refl;
  threshold = omega arith;
}

fresh-IsValid : IsValid fresh
fresh-IsValid = record {
  rows_max = omega arith;
  temps_room = refl;
  speeds_room = refl;
  threshold = refl;
}

curve-IsSorted : IsSorted curve
curve-IsSorted i j h hj =
    below_3 (λ j. (i : ℕ) → i ≤ j → get_or curve.temps i 0 ≤ get_or curve.temps j 0) from_0 from_1
      from_2 j hj i h
  where
    from_0 : (i : ℕ) → i ≤ 0 → get_or curve.temps i 0 ≤ 50
    from_0 zero h = omega arith
    from_0 (suc i) h = absurd (omega arith)

    from_1 : (i : ℕ) → i ≤ 1 → get_or curve.temps i 0 ≤ 60
    from_1 zero h = omega arith
    from_1 (suc zero) h = omega arith
    from_1 (suc (suc i)) h = absurd (omega arith)

    from_2 : (i : ℕ) → i ≤ 2 → get_or curve.temps i 0 ≤ 80
    from_2 i h =
        below_3 (λ i. get_or curve.temps i 0 ≤ 80) (omega arith) (omega arith) (omega arith) i
          (omega arith)

falling-IsSorted : IsSorted falling.matrix
falling-IsSorted zero zero h hj = omega arith
falling-IsSorted zero (suc zero) h hj = omega arith
falling-IsSorted (suc zero) zero h hj = absurd (omega arith)
falling-IsSorted (suc zero) (suc zero) h hj = omega arith
falling-IsSorted (suc (suc i)) zero h hj = absurd (omega arith)
falling-IsSorted (suc (suc i)) (suc zero) h hj = absurd (omega arith)
falling-IsSorted i (suc (suc j)) h hj = absurd (omega arith)

-- What the code writes at some temperatures.
written_at : ℤ → Fanctrl → Option (Option ℕ)
unfolding adjust
written_at sensor s = elim (adjust accepted sensor s) [ none ↦ none | some r ↦ some r.written ]

written_table :
    (written_at (pos 40000) at_60 ≡ some (some 0))
    × (written_at (pos 55000) at_60 ≡ some (some 89))
    × (written_at (pos 58000) at_60 ≡ some (some 128))
    × (written_at (pos 70000) at_60 ≡ some (some 191))
    × (written_at (pos 90000) at_60 ≡ some (some 255))
    × (written_at (negsuc 4) at_60 ≡ some none)
unfolding written_at adjust adjust_at settle curve_point segment_point find_segment holds_back
    held_speed write_speed write_pwm ulong_of_int get_temp percentage_to_pwm one ulp fuel round_with
    round_div of_ulong fadd fmul fdiv round to_ulong sub_ulong lerp lerp_inverse
written_table = (refl, refl, refl, refl, refl, refl)

configure_table : (configure config fresh).1.matrix ≡ curve
unfolding configure set_matrix copy_rows
configure_table = refl

get_speed-percentage_to_pwm_example :
    (q : ℕ) × (percentage_to_pwm 35 ≡ some (exact_pwm 35))
    × (exact_pwm 35 ≤ pwm_max)
    × (get_speed (pos (exact_pwm 35)) ≡ some (pos q))
    × (q ≤ 35)
    × (35 ≤ q + 1)
get_speed-percentage_to_pwm_example = get_speed-percentage_to_pwm 35 (omega arith)

-- From 50 to 60 degrees, at 55, with speeds from 20 to 50.
lerp-lerp_inverse_example :
    (v : ℕ) × ((lerp_inverse 50 60 55 >>= λ f. lerp 20 50 f) ≡ some v)
    × IsWithinOne v 10 (20 * 10 + 30 * 5)
    × (20 ≤ v)
    × (v ≤ 50)
lerp-lerp_inverse_example =
    lerp-lerp_inverse 50 60 55 20 50 (omega arith) (omega arith) (omega arith) (omega arith)
      (omega arith) (omega arith)

configure-IsCurve_example :
    ((configure config fresh).0 ≡ pos 0) × IsCurve (configure config fresh).1.matrix
configure-IsCurve_example = configure-IsCurve config fresh fresh-IsValid config-IsConfig

adjust-Adjustment_example :
    (s' : Fanctrl) × (v : ℕ) × (adjust accepted (pos 58500) at_60
      ≡ some (record { state = s'; status = accepted (exact_pwm v); written = some (exact_pwm v) }))
    × (v ≤ 100)
    × Adjustment at_60 (58500 / 1000) s' v
adjust-Adjustment_example = adjust-Adjustment accepted 58500 at_60 at_60-IsValid curve-IsCurve

run_safe_example :
    (rs : List Adjusted) × (run accepted
        (map pos (45000 ∷ 72000 ∷ 58000 ∷ []))
        (configure config fresh).1
      ≡ some rs)
    × (length rs ≡ 3)
    × All (Wrote accepted) rs
run_safe_example =
    run_safe config fresh accepted (45000 ∷ 72000 ∷ 58000 ∷ []) fresh-IsValid config-IsConfig

run_held_example :
    run accepted (map pos (60000 ∷ 58500 ∷ [])) at_60
    ≡ some (held_call accepted at_60 1 ∷ held_call accepted at_60 1 ∷ [])
run_held_example =
    run_held accepted at_60 1 at_60-IsValid curve-IsCurve curve-IsSorted refl (60000 ∷ 58500 ∷ [])
      ((omega arith, omega arith), ((omega arith, omega arith), tt))

-- From below, 60 degrees are reached exactly.
adjust_reached_example :
    (v : ℕ) × (adjust accepted (pos 60000) (record at_60 { current_threshold = negsuc 0 })
      ≡ some (record {
        state = record at_60 { current_threshold = pos 0 };
        status = accepted (exact_pwm v);
        written = some (exact_pwm v);
      }))
    × CurvePoint curve true (60000 / 1000) (pos 0) v
adjust_reached_example =
    adjust_reached accepted (record at_60 { current_threshold = negsuc 0 }) 0
      (record { rows_max = omega arith; temps_room = refl; speeds_room = refl; threshold = refl })
      curve-IsCurve curve-IsSorted (omega arith) (λ c e. cc) 60000 (omega arith) (omega arith)

adjust_falling_example :
    adjust accepted (pos 55000) falling
    ≡ some (record {
      state = record falling { current_threshold = pos 0 };
      status = pos 0;
      written = some 0;
    })
adjust_falling_example =
    adjust_falling accepted falling 0 55000 falling-IsSorted (omega arith) (omega arith)
      (omega arith) (omega arith) (omega arith) (omega arith) refl
