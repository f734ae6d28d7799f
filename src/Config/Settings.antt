-- ===== src/Config/Settings.antt =====
-- The ranges of the settings that src/fand/config.c stores, and that its handlers keep to them.
use amdgpu_fand.Base.{
  ℕ, zero, suc, ◌+◌, ◌*◌, ◌<◌, ◌≤◌, ◌≡◌, refl, ap, ◌∙◌, arith, List, [], ◌∷◌, Bool, true, false,
  length, length-set, get_or, set, Option, none, some, ℤ, pos, negsuc, Bool-cases, inl, inr, codes,
  same_string,
}
use amdgpu_fand.Fanctrl.{FandConfig, max_temp_thresholds}
use amdgpu_fand.Config.Setting.{
  ushrt_max, uchar_max, store_interval, store_hysteresis, set_throttle,
}
use amdgpu_fand.Config.Matrix.{store_row}

-- Pairs of a temperature and a percentage, at most 15 of them, and numbers that their types hold.
pub record IsSettings (config : FandConfig) : Type 0 where
  pub room : length config.matrix ≡ 2 * max_temp_thresholds
  pub temp_max : (i : ℕ) → get_or config.matrix i 0 ≤ uchar_max
  pub speed_max : (i : ℕ) → get_or config.matrix (2 * i + 1) 0 ≤ 100
  pub rows_max : config.matrix_rows < max_temp_thresholds
  pub interval_max : config.interval ≤ ushrt_max
  pub hysteresis_max : config.hysteresis ≤ uchar_max

-- The settings that a call leaves are in range, whatever its status.
abbrev pub Leaves : ℤ × FandConfig → Type 0
Leaves (status, config) = IsSettings config

get_or-set_le :
    (xs : List ℕ) (i v j bound : ℕ)
    → (j ≡ i → v ≤ bound)
    → get_or xs j 0 ≤ bound
    → get_or (set xs i v) j 0 ≤ bound
get_or-set_le [] i v j bound h old = old
get_or-set_le (x ∷ xs) zero v zero bound h old = h refl
get_or-set_le (x ∷ xs) zero v (suc j) bound h old = old
get_or-set_le (x ∷ xs) (suc i) v zero bound h old = old
get_or-set_le (x ∷ xs) (suc i) v (suc j) bound h old =
    get_or-set_le xs i v j bound (λ e. h (ap suc e)) old

-- The numbers of a row that is stored.
abbrev pub IsRow : ℕ × ℕ → Type 0
IsRow (temp, speed) = (temp ≤ uchar_max) × (speed ≤ 100)

pub store_row-IsSettings :
    (config : FandConfig) (row : ℕ) (numbers : ℕ × ℕ)
    → IsSettings config
    → IsRow numbers
    → IsSettings (store_row config row numbers)
unfolding store_row
store_row-IsSettings config row (temp, speed) ok (t, v) = record {
  room =
      length-set (set config.matrix (row * 2) temp) (row * 2 + 1) speed
      ∙ length-set config.matrix (row * 2) temp
      ∙ ok.room;
  temp_max = λ i.
      get_or-set_le (set config.matrix (row * 2) temp) (row * 2 + 1) speed i uchar_max
        (λ e. omega arith)
        (get_or-set_le config.matrix (row * 2) temp i uchar_max (λ e. t) (ok.temp_max i));
  speed_max = λ i.
      get_or-set_le (set config.matrix (row * 2) temp) (row * 2 + 1) speed (2 * i + 1) 100 (λ e. v)
        (get_or-set_le config.matrix (row * 2) temp (2 * i + 1) 100 (λ e. absurd (omega arith))
          (ok.speed_max i));
  rows_max = ok.rows_max;
  interval_max = ok.interval_max;
  hysteresis_max = ok.hysteresis_max;
}

pub store_interval-Leaves :
    (config : FandConfig) (r : ℤ × Option ℕ) → IsSettings config → Leaves (store_interval config r)
unfolding store_interval
store_interval-Leaves config (pos zero, some ul) ok = record {
  room = ok.room;
  temp_max = ok.temp_max;
  speed_max = ok.speed_max;
  rows_max = ok.rows_max;
  interval_max = omega arith;
  hysteresis_max = ok.hysteresis_max;
}
store_interval-Leaves config (pos zero, none) ok = ok
store_interval-Leaves config (pos (suc n), v) ok = ok
store_interval-Leaves config (negsuc n, v) ok = ok

pub store_hysteresis-Leaves :
    (config : FandConfig) (r : ℤ × Option ℕ)
    → IsSettings config
    → Leaves (store_hysteresis config r)
unfolding store_hysteresis
store_hysteresis-Leaves config (pos zero, some ul) ok = record {
  room = ok.room;
  temp_max = ok.temp_max;
  speed_max = ok.speed_max;
  rows_max = ok.rows_max;
  interval_max = ok.interval_max;
  hysteresis_max = omega arith;
}
store_hysteresis-Leaves config (pos zero, none) ok = ok
store_hysteresis-Leaves config (pos (suc n), v) ok = ok
store_hysteresis-Leaves config (negsuc n, v) ok = ok

-- The flag is in no range.
throttle-IsSettings :
    (config : FandConfig) (b : Bool)
    → IsSettings config
    → IsSettings (record config { throttle = b })
throttle-IsSettings config b ok = record {
  room = ok.room;
  temp_max = ok.temp_max;
  speed_max = ok.speed_max;
  rows_max = ok.rows_max;
  interval_max = ok.interval_max;
  hysteresis_max = ok.hysteresis_max;
}

pub set_throttle-Leaves :
    (config : FandConfig) (value : List ℕ) → IsSettings config → Leaves (set_throttle config value)
unfolding set_throttle
set_throttle-Leaves config value ok = elim (Bool-cases (same_string value (codes "true"))) [
  | inl e ↦ rw e (throttle-IsSettings config true ok)
  | inr e ↦ elim (Bool-cases (same_string value (codes "false"))) [
    | inl e' ↦ rw (e, e') (throttle-IsSettings config false ok)
    | inr e' ↦ rw (e, e') ok
  ]
]

pub rows-IsSettings :
    (config : FandConfig) (rows : ℕ)
    → IsSettings config
    → rows < max_temp_thresholds
    → IsSettings (record config { matrix_rows = rows })
rows-IsSettings config rows ok h = record {
  room = ok.room;
  temp_max = ok.temp_max;
  speed_max = ok.speed_max;
  rows_max = h;
  interval_max = ok.interval_max;
  hysteresis_max = ok.hysteresis_max;
}
