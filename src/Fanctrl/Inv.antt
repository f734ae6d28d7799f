-- ===== src/Fanctrl/Inv.antt =====
-- The invariant of the static variables of src/fand/fanctrl.c, and what `fanctrl_configure` stores.
use amdgpu_fand.Base.{
  ℕ, zero, suc, ◌+◌, ◌*◌, ◌≤◌, ◌<◌, ◌≡◌, refl, ◌∙◌, arith, List, ltb, ◌==◌, get_or, set, length,
  length-set, get_or-set_self, get_or-set_ne, ◌≢◌, Bool-cases, inl, inr, ℤ, pos, negsuc, le→ltb,
}
use amdgpu_fand.Fanctrl.{
  FandConfig, FanctrlMatrix, Fanctrl, max_temp_thresholds, copy_rows, set_matrix, configure,
}
use amdgpu_fand.Fanctrl.Curve.{IsCurve}

-- `current_threshold` is -1 or a row.
abbrev pub IsThreshold : ℕ → ℤ → Type 0
IsThreshold rows (negsuc n) = n ≡ 0
IsThreshold rows (pos c) = c < rows

pub record IsValid (s : Fanctrl) : Type 0 where
  pub rows_max : s.matrix.rows ≤ max_temp_thresholds
  pub temps_room : length s.matrix.temps ≡ max_temp_thresholds
  pub speeds_room : length s.matrix.speeds ≡ max_temp_thresholds
  pub threshold : IsThreshold s.matrix.rows s.current_threshold

-- One round of the loop.
abbrev copied_row : List ℕ → ℕ → FanctrlMatrix → FanctrlMatrix
copied_row mat i m = record m {
  temps = set m.temps i (get_or mat (2 * i) 0);
  speeds = set m.speeds i (get_or mat (2 * i + 1) 0);
}

copy_rows-shape :
    (mat : List ℕ) (left i : ℕ) (m : FanctrlMatrix)
    → ((copy_rows mat left i m).rows ≡ m.rows)
      × (length (copy_rows mat left i m).temps ≡ length m.temps)
      × (length (copy_rows mat left i m).speeds ≡ length m.speeds)
unfolding copy_rows
copy_rows-shape mat zero i m = (refl, refl, refl)
copy_rows-shape mat (suc left) i m =
    let (r, ts, ss) = copy_rows-shape mat left (i + 1) (copied_row mat i m) in
    (r, ts ∙ length-set m.temps i _, ss ∙ length-set m.speeds i _)

-- Rows from `i` on are copied, the others are kept.
copy_rows-kept :
    (mat : List ℕ) (left i j : ℕ) (m : FanctrlMatrix)
    → j < i
    → (get_or (copy_rows mat left i m).temps j 0 ≡ get_or m.temps j 0)
      × (get_or (copy_rows mat left i m).speeds j 0 ≡ get_or m.speeds j 0)
unfolding copy_rows
copy_rows-kept mat zero i j m h = (refl, refl)
copy_rows-kept mat (suc left) i j m h =
    let (ts, ss) = copy_rows-kept mat left (i + 1) j (copied_row mat i m) (omega arith) in
    let apart : i ≢ j = omega arith in
    (
      ts ∙ get_or-set_ne m.temps {i = i} {j = j} _ 0 apart,
      ss ∙ get_or-set_ne m.speeds {i = i} {j = j} _ 0 apart,
    )

copy_rows-copied :
    (mat : List ℕ) (left i j : ℕ) (m : FanctrlMatrix)
    → i ≤ j
    → j < i + left
    → i + left ≤ length m.temps
    → i + left ≤ length m.speeds
    → (get_or (copy_rows mat left i m).temps j 0 ≡ get_or mat (2 * j) 0)
      × (get_or (copy_rows mat left i m).speeds j 0 ≡ get_or mat (2 * j + 1) 0)
unfolding copy_rows
copy_rows-copied mat zero i j m lo hi ht hs = absurd (omega arith)
copy_rows-copied mat (suc left) i j m lo hi ht hs = elim (Bool-cases (i == j)) [
  | inl same ↦
      let e : j ≡ i = ground arith in
      let (ts, ss) = copy_rows-kept mat left (i + 1) i (copied_row mat i m) (omega arith) in
      rw e (
        ts ∙ get_or-set_self m.temps i _ 0 (omega arith),
        ss ∙ get_or-set_self m.speeds i _ 0 (omega arith),
      )
  | inr apart ↦
      copy_rows-copied mat left (i + 1) j (copied_row mat i m) (ground arith) (omega arith)
        (omega (arith, length-set m.temps i (get_or mat (2 * i) 0)))
        (omega (arith, length-set m.speeds i (get_or mat (2 * i + 1) 0)))
]

-- What the daemon needs of a configuration: rows that fit, values in range, speeds that do not fall.
pub record IsConfig (config : FandConfig) : Type 0 where
  pub some_row : 0 < config.matrix_rows
  pub room : config.matrix_rows ≤ max_temp_thresholds
  pub temp_max : (i : ℕ) → i < config.matrix_rows → get_or config.matrix (2 * i) 0 ≤ 255
  pub speed_max : (i : ℕ) → i < config.matrix_rows → get_or config.matrix (2 * i + 1) 0 ≤ 100
  pub rising :
      (i : ℕ)
      → i + 1 < config.matrix_rows
      → get_or config.matrix (2 * i + 1) 0 ≤ get_or config.matrix (2 * (i + 1) + 1) 0

module _ (config : FandConfig) (s : Fanctrl) (ok : IsValid s) where
  -- `fanctrl_configure` keeps the invariant, whether it accepts the matrix or not.
  pub configure-IsValid : IsValid (configure config s).1
  unfolding configure set_matrix
  configure-IsValid = elim (Bool-cases (ltb max_temp_thresholds config.matrix_rows)) [
    | inl large ↦ rw large (record {
      rows_max = ok.rows_max;
      temps_room = ok.temps_room;
      speeds_room = ok.speeds_room;
      threshold = refl;
    })
    | inr fits ↦
        let (r, ts, ss) =
          copy_rows-shape config.matrix config.matrix_rows 0
            (record s.matrix { rows = config.matrix_rows }) in
        rw fits (record {
          rows_max = ground arith;
          temps_room = ts ∙ ok.temps_room;
          speeds_room = ss ∙ ok.speeds_room;
          threshold = refl;
        })
  ]

  pub configure_rows :
      (i : ℕ)
      → config.matrix_rows ≤ max_temp_thresholds
      → i < config.matrix_rows
      → (get_or (configure config s).1.matrix.temps i 0 ≡ get_or config.matrix (2 * i) 0)
        × (get_or (configure config s).1.matrix.speeds i 0 ≡ get_or config.matrix (2 * i + 1) 0)
  unfolding configure set_matrix
  configure_rows i fits h = rw (le→ltb max_temp_thresholds config.matrix_rows fits) (
      copy_rows-copied config.matrix config.matrix_rows 0 i
        (record s.matrix { rows = config.matrix_rows }) (omega arith) (omega arith)
        (omega (arith, ok.temps_room)) (omega (arith, ok.speeds_room)))

  pub configure_settings :
      config.matrix_rows ≤ max_temp_thresholds
      → ((configure config s).0 ≡ pos 0)
        × ((configure config s).1.matrix.rows ≡ config.matrix_rows)
        × ((configure config s).1.current_threshold ≡ negsuc 0)
  unfolding configure set_matrix
  configure_settings fits = rw (le→ltb max_temp_thresholds config.matrix_rows fits) (
    refl,
    (copy_rows-shape config.matrix config.matrix_rows 0
        (record s.matrix { rows = config.matrix_rows })).0,
    refl,
  )

  -- A good configuration is accepted and gives a usable matrix.
  pub configure-IsCurve :
      IsConfig config → ((configure config s).0 ≡ pos 0) × IsCurve (configure config s).1.matrix
  configure-IsCurve c =
      let (status, rows, _) = configure_settings c.room in
      (
        status,
        record {
          some_row = omega (arith, rows, c.some_row);
          room = omega (arith, rows, c.room);
          temp_max = λ i h.
              let (t, v) = configure_rows i c.room (omega (arith, rows)) in
              omega (arith, t, c.temp_max i (omega (arith, rows)));
          speed_max = λ i h.
              let (t, v) = configure_rows i c.room (omega (arith, rows)) in
              omega (arith, v, c.speed_max i (omega (arith, rows)));
          rising = λ i h.
              let (t, v) = configure_rows i c.room (omega (arith, rows)) in
              let (t', v') = configure_rows (i + 1) c.room (omega (arith, rows)) in
              omega (arith, v, v', c.rising i (omega (arith, rows)));
        },
      )
