-- ===== src/Config/Matrix.antt =====
-- `config_set_matrix` of src/fand/config.c.
use amdgpu_fand.Base.{
  ℕ, zero, suc, ◌+◌, ◌*◌, ◌%◌, ◌^◌, List, [], ◌∷◌, ◌==◌, if◌then◌else◌, set, Option, none, some, ℤ,
  pos, negsuc,
}
use amdgpu_fand.Fanctrl.{FandConfig, max_temp_thresholds}
use amdgpu_fand.Serialize.Outcome.{Outcome, ret, undefined, ◌>>=◌}
use amdgpu_fand.Strutils.{strstoul_range}
use amdgpu_fand.Config.CLibrary.{CLibrary, Matcher, group, strchr, copy_group}
use amdgpu_fand.Config.Setting.{uchar_max}

-- CONFIG_NUMBUF_SIZE
abbrev pub numbuf_size : ℕ
numbuf_size = 4

unfoldable pub accepted : ℤ × Option ℕ → Option ℕ
accepted (pos zero, stored) = stored
accepted (pos (suc n), stored) = none
accepted (negsuc n, stored) = none

unfoldable pub number_of : CLibrary → ℕ → Option (List ℕ) → Option ℕ
number_of lib high none = none
number_of lib high (some numbuf) = accepted (strstoul_range lib.strtoul numbuf 0 high)

-- A group as a number up to `high`.
unfoldable pub read_part : CLibrary → List ℕ → ℕ × ℕ → ℕ → Outcome (Option ℕ)
read_part lib value g high =
    copy_group numbuf_size value g >>= λ numbuf. ret (number_of lib high numbuf)

-- The percentage behind a temperature.
unfoldable pub read_speed : CLibrary → List ℕ → ℕ × ℕ → Option ℕ → Outcome (Option (ℕ × ℕ))
read_speed lib value g none = ret none
read_speed lib value g (some temp) = read_part lib value g 100 >>= λ ul.
    ret (elim ul [ none ↦ none | some speed ↦ some (temp % 2 ^ 8, speed % 2 ^ 8) ])

-- The temperature and the percentage of a segment.
unfoldable pub read_row : CLibrary → List ℕ → List (ℕ × ℕ) → Outcome (Option (ℕ × ℕ))
read_row lib value pmatch =
    read_part lib value (group pmatch 0) uchar_max >>= read_speed lib value (group pmatch 1)

unfoldable pub store_row : FandConfig → ℕ → ℕ × ℕ → FandConfig
store_row config row (temp, speed) = record config {
  matrix = set (set config.matrix (row * 2) temp) (row * 2 + 1) speed;
}

-- `strchr(value + 1, ';')`; behind the end of the string there is nothing to read.
unfoldable pub next_segment : List ℕ → Outcome (Option (List ℕ))
next_segment [] = undefined
next_segment (c ∷ value) = ret (strchr value b';')

-- The status, the row and the configuration after the loop.
abbrev pub Rows : Type 0
Rows = Outcome (ℤ × ℕ × FandConfig)

-- A round behind the two numbers; `later` is the rest of the loop.
unfoldable pub keep_row :
    (ℕ → Option (List ℕ) → FandConfig → Rows) → List ℕ → ℕ → FandConfig → Option (ℕ × ℕ) → Rows
keep_row later value row config none = ret (negsuc 0, row, config)
keep_row later value row config (some numbers) =
    next_segment value >>= λ next. later (row + 1) next (store_row config row numbers)

unfoldable pub match_row :
    (ℕ → Option (List ℕ) → FandConfig → Rows)
    → CLibrary
    → List ℕ
    → ℕ
    → FandConfig
    → Option (List (ℕ × ℕ))
    → Rows
match_row later lib value row config none = ret (negsuc 0, row, config)
match_row later lib value row config (some pmatch) =
    read_row lib value pmatch >>= keep_row later value row config

-- The rounds from `row` on, `left` of them at most.
unfoldable pub set_rows : CLibrary → Matcher → ℕ → ℕ → Option (List ℕ) → FandConfig → Rows
set_rows lib regex zero row value config = ret (pos 0, row, config)
set_rows lib regex (suc left) row none config = ret (pos 0, row, config)
set_rows lib regex (suc left) row (some value) config =
    match_row (set_rows lib regex left) lib value row config (regex value)

unfoldable pub finish_matrix : ℤ × ℕ × FandConfig → ℤ × FandConfig
finish_matrix (negsuc n, row, config) = (negsuc n, config)
finish_matrix (pos n, row, config) =
    if row == max_temp_thresholds
    then (negsuc 0, config)
    else (pos 0, record config { matrix_rows = row })

unfoldable pub set_matrix_with :
    CLibrary → Option Matcher → FandConfig → List ℕ → Outcome (ℤ × FandConfig)
set_matrix_with lib none config value = ret (negsuc 0, config)
set_matrix_with lib (some regex) config value =
    set_rows lib regex max_temp_thresholds 0 (some value) config >>= λ r. ret (finish_matrix r)

-- `config_set_matrix`.
unfoldable pub set_matrix : CLibrary → FandConfig → List ℕ → Outcome (ℤ × FandConfig)
set_matrix lib config value = set_matrix_with lib lib.matrix_regex config value
