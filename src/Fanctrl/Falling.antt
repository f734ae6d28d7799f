-- ===== src/Fanctrl/Falling.antt =====
-- What `fanctrl_adjust` does between two rows whose speeds fall: `b - a` wraps around in `lerp`, and
-- the fan is stopped.
use amdgpu_fand.Base.{
  ℕ, ◌+◌, ◌-◌, ◌*◌, ◌/◌, ◌^◌, ◌%◌, ◌≤◌, ◌<◌, ◌≡◌, arith, some, Bool, true, false, leb, get_or,
  ne→==, ℤ, pos, negsuc, int_of, ◌∙◌, ap,
}
use amdgpu_fand.Float.Wide.{lerp_inverse_inside, lerp_falling}
use amdgpu_fand.Fanctrl.{
  FanctrlMatrix, Fanctrl, adjust, adjust_at, get_temp, settle, curve_point, segment_point,
  find_segment, holds_back,
}
use amdgpu_fand.Fanctrl.Segment.{find_segment_total, find_segment-Encloses}
use amdgpu_fand.Fanctrl.Hysteresis.{IsSorted, Encloses-unique}
use amdgpu_fand.Fanctrl.Adjust.{write_speed_lem}
use native.Mathlib.Nat.{zero-add}

int_of_wide : (c : ℕ) → int_of (c * 2 ^ 32) ≡ pos 0
int_of_wide c = let e : c * 2 ^ 32 % 2 ^ 32 ≡ 0 = omega arith in rw e

segment_point_falling :
    (m : FanctrlMatrix) (temp i : ℕ)
    → get_or m.temps i 0 < temp
    → temp < get_or m.temps (i + 1) 0
    → get_or m.temps (i + 1) 0 ≤ 255
    → get_or m.speeds (i + 1) 0 < get_or m.speeds i 0
    → get_or m.speeds i 0 ≤ 255
    → segment_point m temp (some i) ≡ some (pos i, pos 0)
unfolding segment_point
segment_point_falling m temp i lo hi ht fall hs =
    let (f, e, low, high) =
      lerp_inverse_inside (get_or m.temps i 0) (get_or m.temps (i + 1) 0) temp lo hi ht in
    let (c, e') =
      lerp_falling (get_or m.speeds i 0) (get_or m.speeds (i + 1) 0) f fall hs low high in
    rw (e, e', int_of_wide c)

module _ (m : FanctrlMatrix) (temp i : ℕ) (sorted : IsSorted m) (segment : i + 1 < m.rows)
    (lo : get_or m.temps i 0 < temp) (hi : temp < get_or m.temps (i + 1) 0) where
  low_end : get_or m.temps 0 0 < temp
  low_end = omega (arith, sorted 0 i (omega arith) (omega arith))

  high_end : temp ≤ get_or m.temps (m.rows - 1) 0
  high_end = omega (arith, sorted (i + 1) (m.rows - 1) (omega arith) (omega arith))

  find_segment_row : find_segment m.temps temp (m.rows - 1) 0 ≡ some i
  find_segment_row =
      let (j, found) =
        find_segment_total m.temps temp (m.rows - 1) 0 low_end (rw zero-add high_end) in
      let en = rw zero-add at (find_segment-Encloses m.temps temp (m.rows - 1) 0 found) in
      found ∙ ap some (Encloses-unique m i j sorted segment lo (omega arith) en)

  curve_point_falling :
      (throttle : Bool)
      → get_or m.temps (i + 1) 0 ≤ 255
      → get_or m.speeds (i + 1) 0 < get_or m.speeds i 0
      → get_or m.speeds i 0 ≤ 255
      → curve_point m throttle temp ≡ some (pos i, pos 0)
  unfolding curve_point
  curve_point_falling throttle ht fall hs =
      let a : leb temp (get_or m.temps 0 0) ≡ false = ground (arith, low_end) in
      let b : leb temp (get_or m.temps (m.rows - 1) 0) ≡ true = ground (arith, high_end) in
      rw (a, b, find_segment_row) (segment_point_falling m temp i lo hi ht fall hs)

-- With no threshold in force and temperatures that do not fall, a reading strictly between two rows of
-- which the second has the lower speed stops the fan, whatever the two speeds are.
pub adjust_falling :
    (write : ℕ → ℤ) (s : Fanctrl) (i millidegrees : ℕ)
    → IsSorted s.matrix
    → i + 1 < s.matrix.rows
    → get_or s.matrix.temps i 0 < millidegrees / 1000
    → millidegrees / 1000 < get_or s.matrix.temps (i + 1) 0
    → get_or s.matrix.temps (i + 1) 0 ≤ 255
    → get_or s.matrix.speeds (i + 1) 0 < get_or s.matrix.speeds i 0
    → get_or s.matrix.speeds i 0 ≤ 255
    → s.current_threshold ≡ negsuc 0
    → adjust write (pos millidegrees) s
      ≡ some (record {
        state = record s { current_threshold = pos i };
        status = write 0;
        written = some 0;
      })
unfolding adjust adjust_at get_temp settle holds_back
adjust_falling write s i md sorted segment lo hi ht fall hs none_held =
    rw
      (
        ne→== s.matrix.rows 0 (omega arith),
        curve_point_falling s.matrix (md / 1000) i sorted segment lo hi s.throttle ht fall hs,
        none_held,
      )
      (write_speed_lem write (record s { current_threshold = pos i }) 0 (omega arith))
