-- ===== src/Fanctrl/Curve.antt =====
-- The fan curve: what `fanctrl_adjust` reads off the matrix, against a description of the curve.
use amdgpu_fand.Base.{
  ℕ, ◌+◌, ◌-◌, ◌≤◌, ◌<◌, ◌≡◌, refl, arith, Option, none, some, Bool, leb, get_or, Bool-cases, inl,
  inr, ℤ, pos, negsuc, if◌then◌else◌,
}
use native.Mathlib.Nat.{zero-add}
use amdgpu_fand.Fanctrl.{
  FanctrlMatrix, curve_point, find_segment, segment_point, max_temp_thresholds,
}
use amdgpu_fand.Fanctrl.Segment.{
  Encloses, IsOnLine, find_segment-Encloses, find_segment_total, segment_point_between,
}

-- A usable matrix: it has a row, its values are in the range of the configuration, and its speeds do
-- not fall. Nothing is asked of the order of the temperatures.
pub record IsCurve (m : FanctrlMatrix) : Type 0 where
  pub some_row : 0 < m.rows
  pub room : m.rows ≤ max_temp_thresholds
  pub temp_max : (i : ℕ) → i < m.rows → get_or m.temps i 0 ≤ 255
  pub speed_max : (i : ℕ) → i < m.rows → get_or m.speeds i 0 ≤ 100
  pub rising : (i : ℕ) → i + 1 < m.rows → get_or m.speeds i 0 ≤ get_or m.speeds (i + 1) 0

-- The threshold and the speed of a temperature: at or below the first row the fan stops or spins with the
-- first speed; between two rows it spins with a speed less than one percent away from the straight line through
-- them, between their speeds, and the upper one's at the upper temperature; above the last row it spins with
-- the last speed.
pub data CurvePoint (m : FanctrlMatrix) (throttle : Bool) (temp : ℕ) : ℤ → ℕ → Type 0 where
  below :
      temp ≤ get_or m.temps 0 0
      → CurvePoint m throttle temp (negsuc 0) (if throttle then 0 else get_or m.speeds 0 0)
  between :
      (i v : ℕ)
      → Encloses m.temps temp 0 (m.rows - 1) i
      → get_or m.speeds i 0 ≤ v
      → v ≤ get_or m.speeds (i + 1) 0
      → (temp ≡ get_or m.temps (i + 1) 0 → v ≡ get_or m.speeds (i + 1) 0)
      → IsOnLine m temp i v
      → CurvePoint m throttle temp (pos i) v
  above :
      get_or m.temps (m.rows - 1) 0 < temp
      → CurvePoint m throttle temp (pos (m.rows - 1)) (get_or m.speeds (m.rows - 1) 0)

module _ (m : FanctrlMatrix) (throttle : Bool) (temp : ℕ) where
  segment-CurvePoint :
      (o : Option ℕ)
      → IsCurve m
      → find_segment m.temps temp (m.rows - 1) 0 ≡ o
      → get_or m.temps 0 0 < temp
      → temp ≤ get_or m.temps (m.rows - 1) 0
      → (t : ℤ) × (v : ℕ) × (segment_point m temp o ≡ some (t, pos v))
        × CurvePoint m throttle temp t v
  segment-CurvePoint none c e lo hi =
      let (j, found) = find_segment_total m.temps temp (m.rows - 1) 0 lo (rw zero-add hi) in cc
  segment-CurvePoint (some i) c e lo hi =
      let en = rw zero-add at (find_segment-Encloses m.temps temp (m.rows - 1) 0 e) in
      let (v, point, lower, upper, top, line) =
        segment_point_between m temp i 0 (m.rows - 1) en (c.temp_max (i + 1) (omega arith))
          (c.rising i (omega arith)) (c.speed_max (i + 1) (omega arith)) in
      (pos i, v, point, between i v en lower upper top line)

  -- On a usable matrix every temperature has a point, and it is the one described.
  pub curve_point-CurvePoint :
      IsCurve m
      → (t : ℤ) × (v : ℕ) × (curve_point m throttle temp ≡ some (t, pos v))
        × CurvePoint m throttle temp t v
  unfolding curve_point
  curve_point-CurvePoint c = elim (Bool-cases (leb temp (get_or m.temps 0 0))) [
    | inl low ↦
        (negsuc 0, (if throttle then 0 else get_or m.speeds 0 0), rw low, below (ground arith))
    | inr high ↦ elim (Bool-cases (leb temp (get_or m.temps (m.rows - 1) 0))) [
      | inl e ↦ rw (high, e) (segment-CurvePoint _ c refl (ground arith) (ground arith))
      | inr e ↦
          (pos (m.rows - 1), get_or m.speeds (m.rows - 1) 0, rw (high, e), above (ground arith))
    ]
  ]

-- The speed of a point is a percentage.
pub CurvePoint-le :
    {m : FanctrlMatrix} {throttle : Bool} {temp : ℕ} {t : ℤ} {v : ℕ}
    → IsCurve m
    → CurvePoint m throttle temp t v
    → v ≤ 100
CurvePoint-le {m} {throttle} c (below h) = ground (arith, c.speed_max 0 c.some_row)
CurvePoint-le {m} c (between i v en lo hi top line) =
    omega (arith, c.speed_max (i + 1) (omega (arith, en)))
CurvePoint-le {m} c (above h) = c.speed_max (m.rows - 1) (omega (arith, c.some_row))
