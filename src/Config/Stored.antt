-- ===== src/Config/Stored.antt =====
-- The rows that `config_set_matrix` of src/fand/config.c stores in the array of the configuration.
use amdgpu_fand.Base.{
  ℕ, zero, suc, ◌+◌, ◌*◌, ◌≤◌, ◌≡◌, refl, ap, sym, ◌∙◌, arith, List, [], ◌∷◌, ◌++◌, take, set,
  length, length-set, append_assoc, append-nil,
}
use amdgpu_fand.Fanctrl.{FandConfig}
use amdgpu_fand.Config.Matrix.{store_row}
use amdgpu_fand.Config.Text.{TextRow}

-- The settings with the rows stored from `row` on.
abbrev pub stored : ℕ → List TextRow → FandConfig → FandConfig
stored row [] config = config
stored row (r ∷ rows) config = stored (row + 1) rows (store_row config row (r.temp, r.speed))

-- The numbers of the rows, as the matrix holds them.
abbrev pub numbers : List TextRow → List ℕ
numbers [] = []
numbers (r ∷ rows) = r.temp ∷ r.speed ∷ numbers rows

take-set_two :
    (k : ℕ) (xs : List ℕ) (a b : ℕ)
    → k + 2 ≤ length xs
    → take (k + 2) (set (set xs k a) (k + 1) b) ≡ take k xs ++ (a ∷ b ∷ [])
take-set_two zero [] a b h = absurd (omega arith)
take-set_two zero (x ∷ []) a b h = absurd (omega arith)
take-set_two zero (x ∷ y ∷ xs) a b h = refl
take-set_two (suc k) [] a b h = absurd (omega arith)
take-set_two (suc k) (x ∷ xs) a b h =
    let two : suc k + 2 ≡ suc (k + 2) = omega arith in
    let one : suc k + 1 ≡ suc (k + 1) = omega arith in
    rw (two, one) (ap (λ t. x ∷ t) (take-set_two k xs a b (omega arith)))

take-store_row :
    (config : FandConfig) (row temp speed : ℕ)
    → row * 2 + 2 ≤ length config.matrix
    → take ((row + 1) * 2) (store_row config row (temp, speed)).matrix
      ≡ take (row * 2) config.matrix ++ (temp ∷ speed ∷ [])
unfolding store_row
take-store_row config row temp speed h =
    let e : (row + 1) * 2 ≡ row * 2 + 2 = omega arith in
    rw e (take-set_two (row * 2) config.matrix temp speed h)

length-store_row :
    (config : FandConfig) (row : ℕ) (numbers : ℕ × ℕ)
    → length (store_row config row numbers).matrix ≡ length config.matrix
unfolding store_row
length-store_row config row (temp, speed) =
    length-set (set config.matrix (row * 2) temp) (row * 2 + 1) speed
    ∙ length-set config.matrix (row * 2) temp

pub take-stored :
    (row : ℕ) (rows : List TextRow) (config : FandConfig)
    → (row + length rows) * 2 ≤ length config.matrix
    → take ((row + length rows) * 2) (stored row rows config).matrix
      ≡ take (row * 2) config.matrix ++ numbers rows
take-stored row [] config h =
    let e : (row + 0) * 2 ≡ row * 2 = omega arith in
    rw e (sym (append-nil (take (row * 2) config.matrix)))
take-stored row (r ∷ rows) config h =
    let next = store_row config row (r.temp, r.speed) in
    let e : (row + suc (length rows)) * 2 ≡ (row + 1 + length rows) * 2 = omega arith in
    rw e (
      take-stored (row + 1) rows next (omega (arith, length-store_row config row (r.temp, r.speed)))
      ∙ ap (λ (xs : List ℕ). xs ++ numbers rows)
          (take-store_row config row r.temp r.speed (omega arith))
      ∙ append_assoc (take (row * 2) config.matrix) (r.temp ∷ r.speed ∷ []) (numbers rows))

-- Only the matrix changes.
abbrev pub OnlyMatrix : FandConfig → FandConfig → Type 0
OnlyMatrix config config' =
    (config'.throttle ≡ config.throttle)
    × (config'.hysteresis ≡ config.hysteresis)
    × (config'.interval ≡ config.interval)

pub stored-OnlyMatrix :
    (row : ℕ) (rows : List TextRow) (config : FandConfig)
    → OnlyMatrix config (stored row rows config)
unfolding store_row
stored-OnlyMatrix row [] config = (refl, refl, refl)
stored-OnlyMatrix row (r ∷ rows) config =
    stored-OnlyMatrix (row + 1) rows (store_row config row (r.temp, r.speed))
