-- ===== src/Fanctrl/Hysteresis.antt =====
-- Sequences of calls of `fanctrl_adjust`, as the daemon makes them: safety from a good configuration,
-- and the hysteresis over any number of readings.
use amdgpu_fand.Base.{
  ℕ, suc, ◌+◌, ◌-◌, ◌/◌, ◌≤◌, ◌<◌, ◌≡◌, refl, sym, ap, ◌∙◌, arith, List, [], ◌∷◌, Option, some,
  Bool, ltb, get_or, Bool-cases, inl, inr, ℤ, pos, ltb→lt, ◌>>=◌, All, length,
}
use amdgpu_fand.Fanctrl.{FandConfig, FanctrlMatrix, Fanctrl, Adjusted, adjust, configure}
use amdgpu_fand.Fanctrl.Pwm.{exact_pwm}
use amdgpu_fand.Fanctrl.Segment.{Encloses}
use amdgpu_fand.Fanctrl.Curve.{IsCurve, CurvePoint, below, between, above}
use amdgpu_fand.Fanctrl.Inv.{IsValid, IsConfig, IsThreshold, configure-IsValid, configure-IsCurve}
use amdgpu_fand.Fanctrl.Adjust.{Adjustment, hold, follow, IsBelow, pos_injective, adjust-Adjustment}
use mathlib.Core.List.{map}

CurvePoint-IsThreshold :
    {m : FanctrlMatrix} {throttle : Bool} {temp : ℕ} {t : ℤ} {v : ℕ}
    → IsCurve m
    → CurvePoint m throttle temp t v
    → IsThreshold m.rows t
CurvePoint-IsThreshold c (below h) = refl
CurvePoint-IsThreshold c (between i v en lo hi top line) = omega (arith, en)
CurvePoint-IsThreshold c (above h) = omega (arith, c.some_row)

-- An adjustment keeps the invariant and the matrix.
pub Adjustment-IsValid :
    {s s' : Fanctrl} {temp v : ℕ}
    → IsValid s
    → IsCurve s.matrix
    → Adjustment s temp s' v
    → IsValid s' × IsCurve s'.matrix
Adjustment-IsValid ok c (hold t v k p h) = (ok, c)
Adjustment-IsValid ok c (follow t v p h) = (
  record {
    rows_max = ok.rows_max;
    temps_room = ok.temps_room;
    speeds_room = ok.speeds_room;
    threshold = CurvePoint-IsThreshold c p;
  },
  c,
)

-- Calls one after the other, each with what the sensor answers.
unfoldable pub run : (ℕ → ℤ) → List ℤ → Fanctrl → Option (List Adjusted)
run write [] s = some []
run write (sensor ∷ later) s = do
  r ← adjust write sensor s
  rs ← run write later r.state
  some (r ∷ rs)

-- A call that wrote the PWM value of a percentage, with the status of the write.
pub record Wrote (write : ℕ → ℤ) (r : Adjusted) : Type 0 where
  pub speed : ℕ
  pub percentage : speed ≤ 100
  pub pwm : r.written ≡ some (exact_pwm speed)
  pub answer : r.status ≡ write (exact_pwm speed)

run_from :
    (write : ℕ → ℤ) (readings : List ℕ) (s : Fanctrl)
    → IsValid s
    → IsCurve s.matrix
    → (rs : List Adjusted) × (run write (map pos readings) s ≡ some rs)
      × (length rs ≡ length readings)
      × All (Wrote write) rs
unfolding run
run_from write [] s ok c = ([], refl, refl, tt)
run_from write (x ∷ xs) s ok c =
    let (s', v, e, small, how) = adjust-Adjustment write x s ok c in
    let (ok', c') = Adjustment-IsValid ok c how in
    let (rs, e', len, all) = run_from write xs s' ok' c' in
    let r : Adjusted = record {
      state = s';
      status = write (exact_pwm v);
      written = some (exact_pwm v);
    } in
    (
      r ∷ rs,
      rw (e, e'),
      ap suc len,
      (record { speed = v; percentage = small; pwm = refl; answer = refl }, all),
    )

-- From a good configuration every sequence of temperatures, each in millidegrees, is handled: each call is
-- defined and writes the PWM value of a percentage.
pub run_safe :
    (config : FandConfig) (s : Fanctrl) (write : ℕ → ℤ) (readings : List ℕ)
    → IsValid s
    → IsConfig config
    → (rs : List Adjusted) × (run write (map pos readings) (configure config s).1 ≡ some rs)
      × (length rs ≡ length readings)
      × All (Wrote write) rs
run_safe config s write readings ok c =
    run_from write readings (configure config s).1 (configure-IsValid config s ok)
      (configure-IsCurve config s ok c).1

-- The temperatures of the rows do not fall.
abbrev pub IsSorted : FanctrlMatrix → Type 0
IsSorted m = (i j : ℕ) → i ≤ j → j < m.rows → get_or m.temps i 0 ≤ get_or m.temps j 0

-- At or below the temperature of row `c` the curve's threshold is below `c`.
CurvePoint-IsBelow :
    {m : FanctrlMatrix} {throttle : Bool} {temp : ℕ} {t : ℤ} {v : ℕ} (c : ℕ)
    → IsSorted m
    → c < m.rows
    → temp ≤ get_or m.temps c 0
    → CurvePoint m throttle temp t v
    → IsBelow t c
CurvePoint-IsBelow c sorted hc h (below l) = tt
CurvePoint-IsBelow {m} c sorted hc h (between i v en lo hi top line) = elim (Bool-cases (ltb i c)) [
  | inl under ↦ ltb→lt i c under
  | inr over ↦ absurd (omega (arith, en, sorted c i (ground arith) (omega arith)))
]
CurvePoint-IsBelow {m} c sorted hc h (above l) =
    absurd (omega (arith, sorted c (m.rows - 1) (omega arith) (omega arith)))

-- A reading within the hysteresis below row `c`.
abbrev pub IsNear : Fanctrl → ℕ → ℕ → Type 0
IsNear s c millidegrees =
    (millidegrees / 1000 ≤ get_or s.matrix.temps c 0)
    × (get_or s.matrix.temps c 0 < millidegrees / 1000 + s.hysteresis)

-- The call that keeps the speed of row `c`.
abbrev pub held_call : (ℕ → ℤ) → Fanctrl → ℕ → Adjusted
held_call write s c = record {
  state = s;
  status = write (exact_pwm (get_or s.matrix.speeds c 0));
  written = some (exact_pwm (get_or s.matrix.speeds c 0));
}

held-Adjustment :
    {s s' : Fanctrl} {temp v : ℕ} (c : ℕ)
    → IsSorted s.matrix
    → c < s.matrix.rows
    → s.current_threshold ≡ pos c
    → temp ≤ get_or s.matrix.temps c 0
    → get_or s.matrix.temps c 0 < temp + s.hysteresis
    → Adjustment s temp s' v
    → (s' ≡ s) × (v ≡ get_or s.matrix.speeds c 0)
held-Adjustment {s} c sorted hc e h near (hold t v k p held) =
    (refl, ap (λ j. get_or s.matrix.speeds j 0) (pos_injective (sym held.in_force ∙ e)))
held-Adjustment c sorted hc e h near (follow t v p free) =
    absurd
      (free c (record { in_force = e; lower = CurvePoint-IsBelow c sorted hc h p; near = near }))

module _ (write : ℕ → ℤ) (s : Fanctrl) (c : ℕ) (ok : IsValid s) (usable : IsCurve s.matrix)
    (sorted : IsSorted s.matrix) (in_force : s.current_threshold ≡ pos c) where
  row_in_range : c < s.matrix.rows
  row_in_range = rw in_force at ok.threshold

  held_once :
      (millidegrees : ℕ)
      → IsNear s c millidegrees
      → adjust write (pos millidegrees) s ≡ some (held_call write s c)
  held_once x (at, near) =
      let (s', v, e, small, how) = adjust-Adjustment write x s ok usable in
      let (es, ev) = held-Adjustment c sorted row_in_range in_force at near how in rw (es, ev) at e

  -- While row `c` is in force and the readings stay within the hysteresis below it, each call writes
  -- the speed of row `c` and leaves the state as it is, for any number of calls.
  pub run_held :
      (readings : List ℕ)
      → All (IsNear s c) readings
      → run write (map pos readings) s ≡ some (map (λ x. held_call write s c) readings)
  unfolding run
  run_held [] h = refl
  run_held (x ∷ xs) (h, hs) = rw (held_once x h, run_held xs hs)

-- Where the temperatures do not fall, one segment encloses a temperature.
pub Encloses-unique :
    (m : FanctrlMatrix) {temp : ℕ} (i j : ℕ)
    → IsSorted m
    → i + 1 < m.rows
    → get_or m.temps i 0 < temp
    → temp ≤ get_or m.temps (i + 1) 0
    → Encloses m.temps temp 0 (m.rows - 1) j
    → j ≡ i
Encloses-unique m i j sorted hi lo up en = elim (Bool-cases (ltb j i)) [
  | inl before ↦ absurd (omega (arith, en, sorted (j + 1) i (ground arith) (omega arith)))
  | inr other ↦ elim (Bool-cases (ltb i j)) [
    | inl after ↦ absurd (omega (arith, en, sorted (i + 1) j (ground arith) (omega (arith, en))))
    | inr same ↦ ground arith
  ]
]

-- Above row `i` and up to row `i + 1`, that one included, row `i` is the curve's threshold.
CurvePoint-row :
    {m : FanctrlMatrix} {throttle : Bool} {temp : ℕ} {t : ℤ} {v : ℕ} (i : ℕ)
    → IsSorted m
    → i + 1 < m.rows
    → get_or m.temps i 0 < temp
    → temp ≤ get_or m.temps (i + 1) 0
    → CurvePoint m throttle temp t v
    → t ≡ pos i
CurvePoint-row i sorted hi lo up (below h) =
    absurd (omega (arith, sorted 0 i (omega arith) (omega arith)))
CurvePoint-row {m} i sorted hi lo up (above h) =
    absurd (omega (arith, sorted (i + 1) (m.rows - 1) (omega arith) (omega arith)))
CurvePoint-row {m} i sorted hi lo up (between j v en l u top line) =
    ap pos (Encloses-unique m i j sorted hi lo up en)

row-Adjustment :
    {s s' : Fanctrl} {temp v : ℕ} (i : ℕ)
    → IsSorted s.matrix
    → i + 1 < s.matrix.rows
    → ((c : ℕ) → s.current_threshold ≡ pos c → c ≤ i)
    → get_or s.matrix.temps i 0 < temp
    → temp ≤ get_or s.matrix.temps (i + 1) 0
    → Adjustment s temp s' v
    → (s' ≡ record s { current_threshold = pos i }) × CurvePoint s.matrix s.throttle temp (pos i) v
row-Adjustment {s} i sorted hi low lo up (hold t v c p held) =
    let e = CurvePoint-row i sorted hi lo up p in
    absurd (omega (arith, low c held.in_force, below_row e held.lower))
  where
    below_row : {t : ℤ} {c : ℕ} → t ≡ pos i → IsBelow t c → i < c
    below_row e b = rw e at b
row-Adjustment {s} i sorted hi low lo up (follow t v p free) =
    let e = CurvePoint-row i sorted hi lo up p in
    (ap (λ t. record s { current_threshold = t }) e, rw e at p)

module _ (write : ℕ → ℤ) (s : Fanctrl) (i : ℕ) (ok : IsValid s) (usable : IsCurve s.matrix)
    (sorted : IsSorted s.matrix) (segment : i + 1 < s.matrix.rows)
    (low : (c : ℕ) → s.current_threshold ≡ pos c → c ≤ i) where
  -- On a valid state with a usable matrix, with no row above row `i` in force, and temperatures that do not
  -- fall, a reading above row `i` and up to row `i + 1`, that one included, sets the speed of the curve, less than one percent away from the
  -- straight line through the two rows, and leaves row `i` in force: row `i + 1` is not held where its temperature
  -- has been reached exactly.
  pub adjust_reached :
      (millidegrees : ℕ)
      → get_or s.matrix.temps i 0 < millidegrees / 1000
      → millidegrees / 1000 ≤ get_or s.matrix.temps (i + 1) 0
      → (v : ℕ) × (adjust write (pos millidegrees) s
          ≡ some (record {
            state = record s { current_threshold = pos i };
            status = write (exact_pwm v);
            written = some (exact_pwm v);
          }))
        × CurvePoint s.matrix s.throttle (millidegrees / 1000) (pos i) v
  adjust_reached x lo up =
      let (s', v, e, small, how) = adjust-Adjustment write x s ok usable in
      let (es, point) = row-Adjustment i sorted segment low lo up how in (v, rw es at e, point)
