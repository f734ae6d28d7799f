-- ===== src/Fanctrl.antt =====
-- src/fand/fanctrl.c: the fan curve, its hysteresis, and the conversions between percentages and PWM
-- values. The file's static variables are the record `Fanctrl`. What the sensor and the PWM file
-- answer are arguments. `none` is undefined behaviour of C.
pub mod Pwm
pub mod Segment
pub mod Curve
pub mod Inv
pub mod Adjust
pub mod Hysteresis
pub mod Falling
mod Tests
use amdgpu_fand.Base.{
  ℕ, zero, suc, ◌+◌, ◌-◌, ◌*◌, ◌/◌, ◌%◌, ◌^◌, List, Option, none, some, ◌>>=◌, Bool, true, false,
  ◌&&◌, ltb, leb, ◌==◌, if◌then◌else◌, get_or, set, ℤ, pos, negsuc, ltb_ℤ, is_negative, int_of,
}
use amdgpu_fand.Float.{Float, one, of_ulong, fmul, fdiv, lerp, lerp_inverse}

-- MAX_TEMP_THRESHOLDS, which is also MATRIX_MAX_SIZE / 2.
abbrev pub max_temp_thresholds : ℕ
max_temp_thresholds = 16

abbrev pub pwm_min : ℕ
pwm_min = 0

abbrev pub pwm_max : ℕ
pwm_max = 255

-- FAND_FATAL_ERR is -0x20.
abbrev pub fand_fatal_err : ℤ
fand_fatal_err = negsuc 31

-- `struct fand_config`: `matrix` holds temperatures and speeds in turn.
pub record FandConfig : Type 0 where
  pub throttle : Bool
  pub matrix_rows : ℕ
  pub hysteresis : ℕ
  pub interval : ℕ
  pub matrix : List ℕ

-- `struct fanctrl_matrix`, the last two fields of 16 bytes each.
pub record FanctrlMatrix : Type 0 where
  pub rows : ℕ
  pub temps : List ℕ
  pub speeds : List ℕ

pub record Fanctrl : Type 0 where
  pub matrix : FanctrlMatrix
  pub hysteresis : ℕ
  pub current_threshold : ℤ
  pub throttle : Bool

unfoldable pub percentage_to_pwm : ℕ → Option ℕ
percentage_to_pwm percentage = do
  frac ← fdiv (of_ulong percentage) (of_ulong 100)
  lerp pwm_min pwm_max frac

-- The rounds of the loop from row `i` on, `left` of them.
unfoldable pub copy_rows : List ℕ → ℕ → ℕ → FanctrlMatrix → FanctrlMatrix
copy_rows mat zero i m = m
copy_rows mat (suc left) i m = copy_rows mat left (i + 1) (record m {
  temps = set m.temps i (get_or mat (2 * i) 0);
  speeds = set m.speeds i (get_or mat (2 * i + 1) 0);
})

unfoldable pub set_matrix : List ℕ → ℕ → FanctrlMatrix → ℤ × FanctrlMatrix
set_matrix mat nrows m =
    if ltb max_temp_thresholds nrows
    then (negsuc 0, m)
    else (pos 0, copy_rows mat nrows 0 (record m { rows = nrows }))

unfoldable pub configure : FandConfig → Fanctrl → ℤ × Fanctrl
configure config s =
    let (status, m) = set_matrix config.matrix config.matrix_rows s.matrix in
    (
      status,
      record {
        matrix = m;
        hysteresis = config.hysteresis;
        current_threshold = negsuc 0;
        throttle = config.throttle;
      },
    )

-- `fanctrl_get_temp`, of what the sensor answers in millidegrees.
unfoldable pub get_temp : ℤ → ℤ
get_temp (pos temp) = pos (temp / 1000)
get_temp (negsuc n) = negsuc n

-- `fanctrl_get_speed`, of what `hwmon_read_pwm` answers. The cast cuts the fraction.
unfoldable pub get_speed : ℤ → Option ℤ
get_speed (negsuc n) = some (negsuc 0)
get_speed (pos pwm) = do
  frac ← lerp_inverse pwm_min pwm_max pwm
  some (pos (fmul (of_ulong 100) frac / one))

-- The loop over the segments from `i` on, `left` of them.
unfoldable pub find_segment : List ℕ → ℕ → ℕ → ℕ → Option ℕ
find_segment temps temp zero i = none
find_segment temps temp (suc left) i =
    let later = find_segment temps temp left (i + 1) in
    if ltb (get_or temps i 0) temp && leb temp (get_or temps (i + 1) 0) then some i else later

-- The threshold and the speed between two thresholds; where no segment fits, those that
-- `fanctrl_adjust` starts with.
unfoldable pub segment_point : FanctrlMatrix → ℕ → Option ℕ → Option (ℤ × ℤ)
segment_point m temp none = some (negsuc 0, pos (get_or m.speeds (m.rows - 1) 0))
segment_point m temp (some i) = do
  frac ← lerp_inverse (get_or m.temps i 0) (get_or m.temps (i + 1) 0) temp
  speed ← lerp (get_or m.speeds i 0) (get_or m.speeds (i + 1) 0) frac
  some (pos i, int_of speed)

-- The threshold and the speed that the matrix gives for a temperature.
unfoldable pub curve_point : FanctrlMatrix → Bool → ℕ → Option (ℤ × ℤ)
curve_point m throttle temp =
    if leb temp (get_or m.temps 0 0)
    then some (negsuc 0, pos (if throttle then 0 else get_or m.speeds 0 0))
    else if leb temp (get_or m.temps (m.rows - 1) 0)
    then segment_point m temp (find_segment m.temps temp (m.rows - 1) 0)
    else some (pos (m.rows - 1), pos (get_or m.speeds (m.rows - 1) 0))

-- Whether the threshold in force still holds back a lower one.
unfoldable pub holds_back : Fanctrl → ℤ → ℕ → ℤ → Bool
holds_back s (negsuc n) temp threshold = false
holds_back s (pos c) temp threshold =
    ltb_ℤ threshold (pos c) && ltb (get_or s.matrix.temps c 0) (temp + s.hysteresis)

-- The speed of the threshold in force.
unfoldable pub held_speed : Fanctrl → ℤ → ℤ
held_speed s (negsuc n) = pos 0
held_speed s (pos c) = pos (get_or s.matrix.speeds c 0)

-- The conversion of an `int` to `unsigned long`.
unfoldable pub ulong_of_int : ℤ → ℕ
ulong_of_int (pos n) = n
ulong_of_int (negsuc n) = 2 ^ 64 - 1 - n

-- What a call of `fanctrl_adjust` leaves: the state, its result, and the value given to the PWM file.
pub record Adjusted : Type 0 where
  pub state : Fanctrl
  pub status : ℤ
  pub written : Option ℕ

-- `hwmon_write_pwm`; `write` answers for the PWM file.
unfoldable pub write_pwm : (ℕ → ℤ) → ℕ → Fanctrl → Adjusted
write_pwm write pwm s =
    if ltb pwm_max pwm
    then record { state = s; status = fand_fatal_err; written = none }
    else record { state = s; status = write pwm; written = some pwm }

unfoldable pub write_speed : (ℕ → ℤ) → Fanctrl → ℤ → Option Adjusted
write_speed write s speed = do
  pwm ← percentage_to_pwm (ulong_of_int speed)
  some (write_pwm write pwm s)

-- The last part of `fanctrl_adjust`: hysteresis, conversion, write.
unfoldable pub settle : (ℕ → ℤ) → Fanctrl → ℕ → ℤ × ℤ → Option Adjusted
settle write s temp (threshold, speed) =
    if holds_back s s.current_threshold temp threshold
    then write_speed write s (held_speed s s.current_threshold)
    else write_speed write (record s { current_threshold = threshold }) speed

unfoldable pub adjust_at : (ℕ → ℤ) → Fanctrl → ℤ → Option Adjusted
adjust_at write s (negsuc n) = some (record { state = s; status = negsuc n; written = none })
adjust_at write s (pos temp) = do
  point ← curve_point s.matrix s.throttle temp
  settle write s temp point

-- `fanctrl_adjust`, of what the sensor answers.
unfoldable pub adjust : (ℕ → ℤ) → ℤ → Fanctrl → Option Adjusted
adjust write sensor s =
    if s.matrix.rows == 0
    then some (record { state = s; status = fand_fatal_err; written = none })
    else adjust_at write s (get_temp sensor)
