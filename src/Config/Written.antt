-- ===== src/Config/Written.antt =====
-- `config_set_matrix` of src/fand/config.c on the text of a matrix.
use amdgpu_fand.Base.{
  ℕ, zero, suc, ◌+◌, ◌*◌, ◌%◌, ◌^◌, ◌<◌, ◌≤◌, ◌≡◌, ◌⊎◌, refl, ap, sym, ◌∙◌, arith, List, [], ◌∷◌,
  ◌++◌, ◌==◌, true, false, drop, take, length, length-take, take_small, subst, All, Option, none,
  some, pos, negsuc, ℤ, inl, inr,
}
use amdgpu_fand.Fanctrl.{FandConfig, max_temp_thresholds}
use amdgpu_fand.Serialize.Outcome.{ret, ◌>>=◌, Ensures}
use amdgpu_fand.Config.CLibrary.{CLibrary, Matcher, strchr}
use amdgpu_fand.Config.Setting.{uchar_max}
use amdgpu_fand.Config.Matrix.{
  read_speed, read_row, store_row, next_segment, Rows, keep_row, match_row, set_rows, finish_matrix,
  set_matrix_with, set_matrix,
}
use amdgpu_fand.Config.Text.{
  TextRow, IsTextRow, row_text, text_from, matrix_text, FindsRow, strchr-row_text,
  read_part-IsNumeral,
}
use amdgpu_fand.Config.Stored.{stored, numbers, take-stored, OnlyMatrix, stored-OnlyMatrix}

-- Where `strchr` finds the rows that follow.
abbrev next_text : List TextRow → Option (List ℕ)
next_text [] = none
next_text (r ∷ rows) = some (b';' ∷ row_text r.temp_text r.speed_text (text_from rows))

strchr-text_from : (rows : List TextRow) → strchr (text_from rows) b';' ≡ next_text rows
unfolding strchr text_from
strchr-text_from [] = refl
strchr-text_from (r ∷ rows) = refl

pub drop_numbers :
    (c q : ℕ) (t s rest : List ℕ)
    → drop (length t + 4) (c ∷ q ∷ (t ++ (b':' ∷ b':' ∷ (s ++ (b'\'' ∷ rest)))))
      ≡ s ++ (b'\'' ∷ rest)
drop_numbers c q [] s rest = refl
drop_numbers c q (d ∷ t) s rest =
    let e : length (d ∷ t) + 4 ≡ suc (length t + 4) = omega arith in
    rw e (drop_numbers q d t s rest)

module _ (lib : CLibrary) (regex : Matcher) (finds : FindsRow regex) (c : ℕ)
    (opens : (c ≡ b'(') ⊎ (c ≡ b';')) (r : TextRow) (is_row : IsTextRow lib r)
    (rows : List TextRow) where
  abbrev segment : List ℕ
  segment = c ∷ row_text r.temp_text r.speed_text (text_from rows)

  abbrev groups : List (ℕ × ℕ)
  groups =
      (2, length r.temp_text + 2)
      ∷ (length r.temp_text + 4, length r.speed_text + (length r.temp_text + 4))
      ∷ []

  finds_segment : regex segment ≡ some groups
  unfolding text_from
  finds_segment =
      elim rows
        as (λ (rows : List TextRow).
          regex (c ∷ row_text r.temp_text r.speed_text (text_from rows)) ≡ some groups) [
            | [] ↦
                finds c b')' r.temp_text r.speed_text [] opens (inl refl) is_row.0.digits
                  is_row.1.digits is_row.0.some_digit is_row.1.some_digit
            | r' ∷ later ↦
                finds c b';' r.temp_text r.speed_text
                  (row_text r'.temp_text r'.speed_text (text_from later)) opens (inr refl)
                  is_row.0.digits is_row.1.digits is_row.0.some_digit is_row.1.some_digit
          ]

  read_segment : read_row lib segment groups ≡ ret (some (r.temp, r.speed))
  unfolding read_row read_speed row_text
  read_segment =
      let temp_fits : r.temp % 2 ^ 8 ≡ r.temp = omega (arith, is_row.0.in_range) in
      let speed_fits : r.speed % 2 ^ 8 ≡ r.speed = omega (arith, is_row.1.in_range) in
      rw
        (
          read_part-IsNumeral lib segment r.temp_text
              (b':' ∷ b':' ∷ (r.speed_text ++ (b'\'' ∷ text_from rows))) 2 uchar_max r.temp refl
              is_row.0,
          read_part-IsNumeral lib segment r.speed_text (b'\'' ∷ text_from rows)
              (length r.temp_text + 4) 100 r.speed
              (drop_numbers c b'\'' r.temp_text r.speed_text (text_from rows)) is_row.1,
          temp_fits,
          speed_fits,
        )
        refl

  next_row : next_segment segment ≡ ret (next_text rows)
  unfolding next_segment
  next_row = ap ret (
      strchr-row_text r.temp_text r.speed_text (text_from rows) is_row.0.digits is_row.1.digits
      ∙ strchr-text_from rows)

  -- One round stores a row and goes on behind it.
  round_segment :
      (left row : ℕ) (config : FandConfig)
      → set_rows lib regex (suc left) row (some segment) config
        ≡ set_rows lib regex left
            (row + 1)
            (next_text rows)
            (store_row config row (r.temp, r.speed))
  unfolding set_rows match_row keep_row
  round_segment left row config = rw (finds_segment, read_segment, next_row) refl

set_rows-stored :
    (lib : CLibrary) (regex : Matcher) (left row : ℕ) (rows : List TextRow) (config : FandConfig)
    → FindsRow regex
    → All (IsTextRow lib) rows
    → set_rows lib regex left row (next_text rows) config
      ≡ ret (pos 0, row + length (take left rows), stored row (take left rows) config)
unfolding set_rows
set_rows-stored lib regex zero row rows config finds ok = ground arith
set_rows-stored lib regex (suc left) row [] config finds ok = ground arith
set_rows-stored lib regex (suc left) row (r ∷ rows) config finds (is_row, ok) =
    let e : row + 1 + length (take left rows) ≡ row + suc (length (take left rows)) = omega arith in
    round_segment lib regex finds b';' (inr refl) r is_row rows left row config
    ∙ set_rows-stored lib regex left (row + 1) rows (store_row config row (r.temp, r.speed)) finds
        ok
    ∙ rw e refl

-- The numbers of all rows are in the matrix, and the rows are counted.
pub record IsMatrixOf (rows : List TextRow) (before : FandConfig) (after : ℤ × FandConfig)
    : Type 0 where
  pub accepted : after.0 ≡ pos 0
  pub counted : after.1.matrix_rows ≡ length rows
  pub in_matrix : take (length rows * 2) after.1.matrix ≡ numbers rows
  pub others : OnlyMatrix before after.1

-- The text of a matrix, whatever its number of rows: the first 16 are stored.
stores_text :
    (lib : CLibrary) (regex : Matcher) (r : TextRow) (rows : List TextRow) (config : FandConfig)
    → FindsRow regex
    → All (IsTextRow lib) (r ∷ rows)
    → set_rows lib regex max_temp_thresholds 0 (some (matrix_text r rows)) config
      ≡ ret (
        pos 0,
        length (take max_temp_thresholds (r ∷ rows)),
        stored 0 (take max_temp_thresholds (r ∷ rows)) config,
      )
unfolding matrix_text
stores_text lib regex r rows config finds (is_row, ok) =
    let e : 1 + length (take 15 rows) ≡ suc (length (take 15 rows)) = omega arith in
    round_segment lib regex finds b'(' (inl refl) r is_row rows 15 0 config
    ∙ set_rows-stored lib regex 15 1 rows (store_row config 0 (r.temp, r.speed)) finds ok
    ∙ rw e refl

-- The status, and the settings, that a matrix of these rows is to give.
abbrev pub IsOutcome : List TextRow → FandConfig → ℤ × FandConfig → Type 0
IsOutcome rows config r =
    (length rows < max_temp_thresholds → IsMatrixOf rows config r)
    × (max_temp_thresholds ≤ length rows → r.0 ≡ negsuc 0)

-- The end of the call with these rows stored.
abbrev finished : List TextRow → FandConfig → ℤ × FandConfig
finished rows config = finish_matrix (pos 0, length rows, stored 0 rows config)

finished-IsMatrixOf :
    (rows : List TextRow) (config : FandConfig)
    → length rows < max_temp_thresholds
    → length config.matrix ≡ 2 * max_temp_thresholds
    → IsMatrixOf rows config (finished rows config)
unfolding finish_matrix
finished-IsMatrixOf rows config small room =
    let fits : (length rows == max_temp_thresholds) ≡ false = ground arith in
    let e : length rows ≡ 0 + length rows = omega arith in
    rw fits (record {
      accepted = refl;
      counted = refl;
      in_matrix =
          ap (λ (n : ℕ). take (n * 2) (stored 0 rows config).matrix) e
          ∙ take-stored 0 rows config (omega arith);
      others = stored-OnlyMatrix 0 rows config;
    })

finished_full :
    (rows : List TextRow) (config : FandConfig)
    → length rows ≡ max_temp_thresholds
    → (finished rows config).0 ≡ negsuc 0
unfolding finish_matrix
finished_full rows config e =
    let full : (length rows == max_temp_thresholds) ≡ true = ground arith in rw full refl

finished-IsOutcome :
    (rows : List TextRow) (config : FandConfig)
    → length config.matrix ≡ 2 * max_temp_thresholds
    → IsOutcome rows config (finished (take max_temp_thresholds rows) config)
finished-IsOutcome rows config room = (
  λ small.
      subst (λ (first : List TextRow). IsMatrixOf rows config (finished first config))
        (sym (take_small max_temp_thresholds rows (omega arith)))
        (finished-IsMatrixOf rows config small room),
  λ large.
      finished_full (take max_temp_thresholds rows) config
        (omega (arith, length-take max_temp_thresholds rows)),
)

set_matrix_with-matrix_text :
    (lib : CLibrary) (regex : Matcher) (r : TextRow) (rows : List TextRow) (config : FandConfig)
    → FindsRow regex
    → All (IsTextRow lib) (r ∷ rows)
    → length config.matrix ≡ 2 * max_temp_thresholds
    → Ensures
        (IsOutcome (r ∷ rows) config)
        (set_matrix_with lib (some regex) config (matrix_text r rows))
unfolding set_matrix_with
set_matrix_with-matrix_text lib regex r rows config finds ok room =
    subst (λ (o : Rows). Ensures (IsOutcome (r ∷ rows) config) (o >>= λ r. ret (finish_matrix r)))
      (sym (stores_text lib regex r rows config finds ok))
      (finished-IsOutcome (r ∷ rows) config room)

-- Of the text `('t::s';...;'t::s')` whose numbers have one to three digits, temperatures up to 255 and
-- percentages up to 100, `config_set_matrix` stores all rows in order in the array of 32 bytes, counts them, and
-- changes no other setting, where they are at most 15; of 16 rows and more it returns -1. Required is that the
-- expression finds a row that a text begins with, and that `strtoul` reads the digits.
pub set_matrix-matrix_text :
    (lib : CLibrary) (regex : Matcher) (r : TextRow) (rows : List TextRow) (config : FandConfig)
    → lib.matrix_regex ≡ some regex
    → FindsRow regex
    → All (IsTextRow lib) (r ∷ rows)
    → length config.matrix ≡ 2 * max_temp_thresholds
    → Ensures (IsOutcome (r ∷ rows) config) (set_matrix lib config (matrix_text r rows))
unfolding set_matrix
set_matrix-matrix_text lib regex r rows config e finds ok room =
    subst
      (λ (m : Option Matcher).
        Ensures (IsOutcome (r ∷ rows) config) (set_matrix_with lib m config (matrix_text r rows)))
      (sym e) (set_matrix_with-matrix_text lib regex r rows config finds ok room)
