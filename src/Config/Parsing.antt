-- ===== src/Config/Parsing.antt =====
-- `config_parse` of src/fand/config.c: memory, termination, and the settings that it leaves.
use amdgpu_fand.Base.{
  ℕ, zero, suc, ◌<◌, ◌≤◌, ◌≡◌, arith, List, [], ◌∷◌, ◌==◌, drop, length, replicate, ◌+◌, ◌*◌,
  get_or, length-replicate, Option, none, some, ℤ, pos, negsuc, codes, c_string, same_string,
  Bool-cases, inl, inr,
}
use amdgpu_fand.Fanctrl.{FandConfig, Fanctrl, configure}
use amdgpu_fand.Fanctrl.Inv.{IsValid, configure_settings, configure_rows}
use amdgpu_fand.Serialize.Outcome.{Ensures, >>=-Ensures, Ensures-weaken}
use amdgpu_fand.Strutils.{strtolower}
use amdgpu_fand.Strutils.Room.{IsCopied, strsncpy-IsCopied}
use amdgpu_fand.Config.CLibrary.{CLibrary, Matcher, group, regmatch_length, line_empty}
use amdgpu_fand.Config.Setting.{set_interval, set_hysteresis}
use amdgpu_fand.Config.Append.{buffer_size}
use amdgpu_fand.Config.File.{
  key_size, Handler, interval, hysteresis, matrix, throttle, config_map, find_handler, handle,
  Parsed, go_on, dispatch, dispatch_matrix, set_key, copy_value, match_line, stripped, parse_line,
  check_matrix, parse_lines, parse_file, config_parse,
}
use amdgpu_fand.Config.Settings.{
  IsSettings, Leaves, store_interval-Leaves, store_hysteresis-Leaves, set_throttle-Leaves,
}
use amdgpu_fand.Config.Ranges.{copy_group_ends, RejectsEmpty, LeavesMatrix, set_matrix-LeavesMatrix}
use amdgpu_fand.Config.Joined.{IsAppended, append_matrix_rows-IsAppended}

-- The settings are in range, and there is a row where the call returns 0.
abbrev pub IsParsed : ℤ × FandConfig → Type 0
IsParsed (status, config) = (status ≡ pos 0 → 1 ≤ config.matrix_rows) × IsSettings config

handle-Leaves :
    (lib : CLibrary) (config : FandConfig) (value : List ℕ) (handler : Handler)
    → RejectsEmpty lib
    → IsSettings config
    → Ensures Leaves (handle lib config value handler)
unfolding handle set_interval set_hysteresis
handle-Leaves lib config value interval rejects ok = store_interval-Leaves config _ ok
handle-Leaves lib config value hysteresis rejects ok = store_hysteresis-Leaves config _ ok
handle-Leaves lib config value matrix rejects ok =
    Ensures-weaken LeavesMatrix Leaves _ (λ r left. left.1)
      (set_matrix-LeavesMatrix lib config value rejects ok)
handle-Leaves lib config value throttle rejects ok = set_throttle-Leaves config value ok

check_matrix-IsParsed : (config : FandConfig) → IsSettings config → IsParsed (check_matrix config)
unfolding check_matrix
check_matrix-IsParsed config ok = elim (Bool-cases (config.matrix_rows == 0)) [
  | inl empty ↦ rw empty (λ e. cc, ok)
  | inr rows ↦ rw rows (λ e. ground arith, ok)
]

go_on-IsParsed :
    (later : FandConfig → Parsed) (r : ℤ × FandConfig)
    → ((config : FandConfig) → IsSettings config → Ensures IsParsed (later config))
    → Leaves r
    → Ensures IsParsed (go_on later r)
unfolding go_on
go_on-IsParsed later (pos zero, config) later_lem ok = later_lem config ok
go_on-IsParsed later (pos (suc n), config) later_lem ok = (λ e. cc, ok)
go_on-IsParsed later (negsuc n, config) later_lem ok = (λ e. cc, ok)

dispatch-IsParsed :
    (later : FandConfig → Parsed) (lib : CLibrary) (config : FandConfig) (value : List ℕ)
    (found : Option Handler)
    → RejectsEmpty lib
    → ((config : FandConfig) → IsSettings config → Ensures IsParsed (later config))
    → IsSettings config
    → Ensures IsParsed (dispatch later lib config value found)
unfolding dispatch
dispatch-IsParsed later lib config value none rejects later_lem ok = (λ e. cc, ok)
dispatch-IsParsed later lib config value (some handler) rejects later_lem ok =
    >>=-Ensures Leaves IsParsed _ _ (handle-Leaves lib config value handler rejects ok)
      (λ r left. go_on-IsParsed later r later_lem left)

-- One round, where the rest of the loop is known to behave on `left` lines.
module _ (left : ℕ) (later : List (List ℕ) → FandConfig → Parsed) (lib : CLibrary)
    (rejects : RejectsEmpty lib)
    (later_lem : (rest : List (List ℕ)) (config : FandConfig)
      → length rest ≤ left
      → IsSettings config
      → Ensures IsParsed (later rest config))
    (config : FandConfig) (ok : IsSettings config) where
  dispatch_matrix-IsParsed :
      (key : List ℕ) (r : ℤ × List ℕ × List (List ℕ))
      → IsAppended left r
      → Ensures IsParsed (dispatch_matrix later lib config key r)
  unfolding dispatch_matrix
  dispatch_matrix-IsParsed key (pos zero, value, rest) (room, fewer) =
      dispatch-IsParsed (later rest) lib config (c_string value) (find_handler key config_map)
        rejects (λ config' ok'. later_lem rest config' fewer ok') ok
  dispatch_matrix-IsParsed key (pos (suc n), value, rest) appended = (λ e. cc, ok)
  dispatch_matrix-IsParsed key (negsuc n, value, rest) appended = (λ e. cc, ok)

  module _ (rest : List (List ℕ)) (fewer : length rest ≤ left) where
    set_key-IsParsed :
        (key : List ℕ) (r : ℤ × List ℕ)
        → IsCopied buffer_size r
        → Ensures IsParsed (set_key later lib rest config key r)
    unfolding set_key
    set_key-IsParsed key (negsuc n, value) copied = (λ e. cc, ok)
    set_key-IsParsed key (pos n, value) (small, room) =
        elim (Bool-cases (same_string key (codes "matrix"))) [
          | inl e ↦ rw e (
              >>=-Ensures (IsAppended (length rest)) IsParsed _ _
                (append_matrix_rows-IsAppended rest value room lib)
                (λ r appended.
                  dispatch_matrix-IsParsed key r (appended.0, omega (arith, appended.1))))
          | inr e ↦ rw e (
              dispatch-IsParsed (later rest) lib config (c_string value)
                (find_handler key config_map) rejects
                (λ config' ok'. later_lem rest config' fewer ok') ok)
        ]

    copy_value-IsParsed :
        (buffer : List ℕ) (g : ℕ × ℕ) (key : Option (List ℕ))
        → Ensures IsParsed (copy_value later lib rest config buffer g key)
    unfolding copy_value
    copy_value-IsParsed buffer g none = (λ e. cc, ok)
    copy_value-IsParsed buffer g (some key) =
        >>=-Ensures (IsCopied buffer_size) IsParsed _ _
          (strsncpy-IsCopied (replicate buffer_size 0) (drop g.0 buffer) buffer_size
            (regmatch_length g) (omega arith) (length-replicate {A = ℕ} buffer_size 0))
          (set_key-IsParsed (strtolower lib.tolower key))

    match_line-IsParsed :
        (buffer : List ℕ) (found : Option (List (ℕ × ℕ)))
        → Ensures IsParsed (match_line later lib rest config buffer found)
    unfolding match_line
    match_line-IsParsed buffer none = (λ e. cc, ok)
    match_line-IsParsed buffer (some pmatch) =
        >>=-Ensures (λ key. Unit {0}) IsParsed _ _
          (copy_group_ends key_size buffer (group pmatch 0) (omega arith))
          (λ key u. copy_value-IsParsed buffer (group pmatch 1) key)

    parse_line-IsParsed :
        (regex : Matcher) (buffer : List ℕ)
        → Ensures IsParsed (parse_line later lib regex rest config buffer)
    unfolding parse_line
    parse_line-IsParsed regex buffer = elim (Bool-cases (line_empty buffer)) [
      | inl e ↦ rw e (later_lem rest config fewer ok)
      | inr e ↦ rw e (match_line-IsParsed buffer (regex buffer))
    ]

parse_lines-IsParsed :
    (fuel : ℕ) (lib : CLibrary) (regex : Matcher) (lines : List (List ℕ)) (config : FandConfig)
    → RejectsEmpty lib
    → length lines ≤ fuel
    → IsSettings config
    → Ensures IsParsed (parse_lines fuel lib regex lines config)
unfolding parse_lines
parse_lines-IsParsed fuel lib regex [] config rejects enough ok = check_matrix-IsParsed config ok
parse_lines-IsParsed zero lib regex (line ∷ rest) config rejects enough ok = absurd (omega arith)
parse_lines-IsParsed (suc fuel) lib regex (line ∷ rest) config rejects enough ok =
    parse_line-IsParsed fuel (parse_lines fuel lib regex) lib rejects
      (λ rest' config' enough' ok'.
        parse_lines-IsParsed fuel lib regex rest' config' rejects enough' ok')
      config ok rest (omega arith) regex (stripped line)

parse_file-IsParsed :
    (lib : CLibrary) (regex : Option Matcher) (file : Option (List (List ℕ))) (config : FandConfig)
    → RejectsEmpty lib
    → IsSettings config
    → Ensures IsParsed (parse_file lib regex file config)
unfolding parse_file
parse_file-IsParsed lib none file config rejects ok = (λ e. cc, ok)
parse_file-IsParsed lib (some regex) none config rejects ok = (λ e. cc, ok)
parse_file-IsParsed lib (some regex) (some lines) config rejects ok =
    parse_lines-IsParsed (length lines) lib regex lines config rejects (omega arith) ok

pub config_parse-IsParsed :
    (lib : CLibrary) (file : Option (List (List ℕ))) (config : FandConfig)
    → RejectsEmpty lib
    → IsSettings config
    → Ensures IsParsed (config_parse lib file config)
unfolding config_parse
config_parse-IsParsed lib file config rejects ok =
    parse_file-IsParsed lib lib.value_regex file config rejects ok

-- What a successful call leaves is a matrix that `fanctrl_configure` takes: the number of its rows, and the
-- temperature and the percentage of each.
abbrev pub IsTaken : Fanctrl → ℤ × FandConfig → Type 0
IsTaken s (status, config) =
    status ≡ pos 0
    → ((configure config s).0 ≡ pos 0)
      × ((configure config s).1.matrix.rows ≡ config.matrix_rows)
      × (0 < config.matrix_rows)
      × ((i : ℕ)
          → i < config.matrix_rows
          → (get_or (configure config s).1.matrix.temps i 0 ≡ get_or config.matrix (2 * i) 0)
            × (get_or (configure config s).1.matrix.speeds i 0
                ≡ get_or config.matrix (2 * i + 1) 0))

parsed-IsTaken : (s : Fanctrl) (r : ℤ × FandConfig) → IsValid s → IsParsed r → IsTaken s r
parsed-IsTaken s (status, config) valid (some_row, ok) = λ e.
    let room : config.matrix_rows ≤ 16 = omega (arith, ok.rows_max) in
    let (taken, rows, threshold) = configure_settings config s valid room in
    (taken, rows, some_row e, λ i h. configure_rows config s valid i room h)

-- The settings of a file that `config_parse` accepts are accepted by `fanctrl_configure`, which then has as many
-- rows as they have, one at least, and in each row their temperature and their percentage. Required is that the
-- state of the fan control and the settings before are well formed, and that the expression of a matrix does not
-- match the empty string.
pub configure-config_parse :
    (lib : CLibrary) (file : Option (List (List ℕ))) (config : FandConfig) (s : Fanctrl)
    → RejectsEmpty lib
    → IsSettings config
    → IsValid s
    → Ensures (IsTaken s) (config_parse lib file config)
configure-config_parse lib file config s rejects ok valid =
    Ensures-weaken IsParsed (IsTaken s) _ (λ r parsed. parsed-IsTaken s r valid parsed)
      (config_parse-IsParsed lib file config rejects ok)
