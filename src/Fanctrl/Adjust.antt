-- ===== src/Fanctrl/Adjust.antt =====
-- `fanctrl_adjust` as a whole: what it writes and the threshold that it leaves.
use amdgpu_fand.Base.{
  ℕ, ◌+◌, ◌/◌, ◌≤◌, ◌<◌, ◌≡◌, refl, sym, ◌∙◌, arith, some, true, false, get_or, Bool-cases, inl,
  inr, ℤ, pos, negsuc, ne→==, le→ltb, ◌⊎◌,
}
use amdgpu_fand.Fanctrl.{
  Fanctrl, adjust, adjust_at, get_temp, settle, write_speed, write_pwm, holds_back, held_speed,
  ulong_of_int, pwm_max,
}
use amdgpu_fand.Fanctrl.Inv.{IsValid}
use amdgpu_fand.Fanctrl.Pwm.{exact_pwm, percentage_to_pwm-exact}
use amdgpu_fand.Fanctrl.Curve.{IsCurve, CurvePoint, curve_point-CurvePoint, CurvePoint-le}

-- A threshold is below row `c`.
abbrev pub IsBelow : ℤ → ℕ → Type 0
IsBelow (negsuc n) c = Unit
IsBelow (pos t) c = t < c

-- The threshold in force is above `t`, and the temperature is within the hysteresis below it.
pub record IsHeld (s : Fanctrl) (temp : ℕ) (t : ℤ) (c : ℕ) : Type 0 where
  pub in_force : s.current_threshold ≡ pos c
  pub lower : IsBelow t c
  pub near : get_or s.matrix.temps c 0 < temp + s.hysteresis

-- What an adjustment does at a temperature: the speed that it sets and the state that it leaves.
pub data Adjustment (s : Fanctrl) (temp : ℕ) : Fanctrl → ℕ → Type 0 where
  hold :
      (t : ℤ) (v c : ℕ)
      → CurvePoint s.matrix s.throttle temp t v
      → IsHeld s temp t c
      → Adjustment s temp s (get_or s.matrix.speeds c 0)
  follow :
      (t : ℤ) (v : ℕ)
      → CurvePoint s.matrix s.throttle temp t v
      → ((c : ℕ) → ¬ IsHeld s temp t c)
      → Adjustment s temp (record s { current_threshold = t }) v

holds_back→Near :
    (s : Fanctrl) (temp c : ℕ) (t : ℤ)
    → holds_back s (pos c) temp t ≡ true
    → IsBelow t c × (get_or s.matrix.temps c 0 < temp + s.hysteresis)
unfolding holds_back
holds_back→Near s temp c (pos t) h = ground arith
holds_back→Near s temp c (negsuc n) h = ground arith

Near→holds_back :
    (s : Fanctrl) (temp c : ℕ) (t : ℤ)
    → IsBelow t c
    → get_or s.matrix.temps c 0 < temp + s.hysteresis
    → holds_back s (pos c) temp t ≡ true
unfolding holds_back
Near→holds_back s temp c (pos t) b h = ground arith
Near→holds_back s temp c (negsuc n) b h = ground arith

pub pos_injective : {a b : ℕ} → pos a ≡ pos b → a ≡ b
pos_injective h = cc

-- The test of the code decides whether the threshold is held.
holds_back-cases :
    (s : Fanctrl) (temp : ℕ) (t k : ℤ)
    → s.current_threshold ≡ k
    → ((c : ℕ) × (holds_back s k temp t ≡ true) × (k ≡ pos c) × IsHeld s temp t c)
      ⊎ (holds_back s k temp t ≡ false) × ((c : ℕ) → ¬ IsHeld s temp t c)
holds_back-cases s temp t (negsuc n) e = inr (unfold holds_back in refl, λ c h. cc (e, h.in_force))
holds_back-cases s temp t (pos k) e = elim (Bool-cases (holds_back s (pos k) temp t)) [
  | inl held ↦
      let (lower, near) = holds_back→Near s temp k t held in
      inl (k, held, refl, record { in_force = e; lower = lower; near = near })
  | inr free ↦ inr (
    free,
    λ c h.
        let at : c ≡ k = pos_injective (sym h.in_force ∙ e) in
        cc (free, Near→holds_back s temp k t (rw (← at) h.lower) (rw (← at) h.near)),
  )
]

-- A percentage is written as its PWM value.
pub write_speed_lem :
    (write : ℕ → ℤ) (s : Fanctrl) (v : ℕ)
    → v ≤ 100
    → write_speed write s (pos v)
      ≡ some (record { state = s; status = write (exact_pwm v); written = some (exact_pwm v) })
unfolding write_speed write_pwm ulong_of_int
write_speed_lem write s v h =
    rw (percentage_to_pwm-exact v h, le→ltb pwm_max (exact_pwm v) (omega arith))

held_speed_at :
    (s : Fanctrl) (c : ℕ) {k : ℤ} → k ≡ pos c → held_speed s k ≡ pos (get_or s.matrix.speeds c 0)
unfolding held_speed
held_speed_at s c e = rw e

in_range : (s : Fanctrl) (c : ℕ) → IsValid s → s.current_threshold ≡ pos c → c < s.matrix.rows
in_range s c ok e = rw e at ok.threshold

-- On a valid state with a usable matrix `fanctrl_adjust` is defined at every temperature that the sensor gives in
-- millidegrees, and writes the PWM value of a speed of at most 100 %, with the status of that write.
-- The speed and the threshold left behind are those of `Adjustment`: the speed of the threshold in
-- force while the temperature is within the hysteresis below it, the curve's point otherwise, between two rows less
-- than one percent away from the straight line through them.
pub adjust-Adjustment :
    (write : ℕ → ℤ) (millidegrees : ℕ) (s : Fanctrl)
    → IsValid s
    → IsCurve s.matrix
    → (s' : Fanctrl) × (v : ℕ) × (adjust write (pos millidegrees) s
        ≡ some (record { state = s'; status = write (exact_pwm v); written = some (exact_pwm v) }))
      × (v ≤ 100)
      × Adjustment s (millidegrees / 1000) s' v
unfolding adjust adjust_at get_temp settle
adjust-Adjustment write millidegrees s ok c =
    let temp = millidegrees / 1000 in
    let (t, v, point, on_curve) = curve_point-CurvePoint s.matrix s.throttle temp c in
    elim (holds_back-cases s temp t s.current_threshold refl) [
      | inl (k, held, at, h) ↦ (
        s,
        get_or s.matrix.speeds k 0,
        rw (ne→== s.matrix.rows 0 (omega (arith, c.some_row)), point, held, held_speed_at s k at)
            (write_speed_lem write s _ (c.speed_max k (in_range s k ok h.in_force))),
        c.speed_max k (in_range s k ok h.in_force),
        hold t v k on_curve h,
      )
      | inr (free, none_held) ↦ (
        record s { current_threshold = t },
        v,
        rw (ne→== s.matrix.rows 0 (omega (arith, c.some_row)), point, free)
            (write_speed_lem write _ v (CurvePoint-le c on_curve)),
        CurvePoint-le c on_curve,
        follow t v on_curve none_held,
      )
    ]
