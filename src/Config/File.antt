-- ===== src/Config/File.antt =====
-- `config_parse` of src/fand/config.c. The file is the list of the lines that fgets gives.
use amdgpu_fand.Base.{
  ℕ, zero, suc, List, [], ◌∷◌, ◌==◌, if◌then◌else◌, length, drop, replicate, Option, none, some, ℤ,
  pos, negsuc, codes, c_string, same_string,
}
use amdgpu_fand.Fanctrl.{FandConfig}
use amdgpu_fand.Serialize.Outcome.{Outcome, ret, out_of_fuel, ◌>>=◌}
use amdgpu_fand.Strutils.{strsncpy, strtolower}
use amdgpu_fand.Config.CLibrary.{
  CLibrary, Matcher, group, regmatch_length, replaced, strip_comments, line_empty, copy_group,
}
use amdgpu_fand.Config.Setting.{set_interval, set_hysteresis, set_throttle}
use amdgpu_fand.Config.Matrix.{set_matrix}
use amdgpu_fand.Config.Append.{buffer_size, append_matrix_rows}

-- CONFIG_KEY_SIZE
abbrev pub key_size : ℕ
key_size = 64

-- The handlers, and `config_map`.
pub data Handler : Type 0 where
  interval hysteresis matrix throttle : Handler

unfoldable pub config_map : List (List ℕ × Handler)
config_map =
    (codes "interval", interval)
    ∷ (codes "hysteresis", hysteresis)
    ∷ (codes "matrix", matrix)
    ∷ (codes "aggressive_throttle", throttle)
    ∷ []

unfoldable pub find_handler : List ℕ → List (List ℕ × Handler) → Option Handler
find_handler key [] = none
find_handler key ((name, handler) ∷ later) =
    if same_string key name then some handler else find_handler key later

unfoldable pub handle : CLibrary → FandConfig → List ℕ → Handler → Outcome (ℤ × FandConfig)
handle lib config value interval = ret (set_interval lib config value)
handle lib config value hysteresis = ret (set_hysteresis lib config value)
handle lib config value matrix = set_matrix lib config value
handle lib config value throttle = ret (set_throttle config value)

-- The status of a call, and the configuration as it leaves it.
abbrev pub Parsed : Type 0
Parsed = Outcome (ℤ × FandConfig)

-- A status other than 0 ends the loop.
unfoldable pub go_on : (FandConfig → Parsed) → ℤ × FandConfig → Parsed
go_on later (pos zero, config) = later config
go_on later (pos (suc n), config) = ret (pos (suc n), config)
go_on later (negsuc n, config) = ret (negsuc n, config)

unfoldable pub dispatch :
    (FandConfig → Parsed) → CLibrary → FandConfig → List ℕ → Option Handler → Parsed
dispatch later lib config value none = ret (negsuc 0, config)
dispatch later lib config value (some handler) = handle lib config value handler >>= go_on later

-- The handler of a matrix runs on the lines put together; `later` takes the lines not read.
unfoldable pub dispatch_matrix :
    (List (List ℕ) → FandConfig → Parsed)
    → CLibrary
    → FandConfig
    → List ℕ
    → ℤ × List ℕ × List (List ℕ)
    → Parsed
dispatch_matrix later lib config key (pos zero, value, rest) =
    dispatch (later rest) lib config (c_string value) (find_handler key config_map)
dispatch_matrix later lib config key (pos (suc n), value, rest) = ret (pos (suc n), config)
dispatch_matrix later lib config key (negsuc n, value, rest) = ret (negsuc n, config)

-- A line with its key and the buffer of its value.
unfoldable pub set_key :
    (List (List ℕ) → FandConfig → Parsed)
    → CLibrary
    → List (List ℕ)
    → FandConfig
    → List ℕ
    → ℤ × List ℕ
    → Parsed
set_key later lib rest config key (negsuc n, value) = ret (negsuc 0, config)
set_key later lib rest config key (pos n, value) =
    if same_string key (codes "matrix")
    then (append_matrix_rows lib rest value >>= dispatch_matrix later lib config key)
    else dispatch (later rest) lib config (c_string value) (find_handler key config_map)

-- The copy of the value; what its buffer held before does not show.
unfoldable pub copy_value :
    (List (List ℕ) → FandConfig → Parsed)
    → CLibrary
    → List (List ℕ)
    → FandConfig
    → List ℕ
    → ℕ × ℕ
    → Option (List ℕ)
    → Parsed
copy_value later lib rest config buffer g none = ret (negsuc 0, config)
copy_value later lib rest config buffer g (some key) =
    strsncpy (replicate buffer_size 0) (drop g.0 buffer) buffer_size (regmatch_length g)
    >>= set_key later lib rest config (strtolower lib.tolower key)

unfoldable pub match_line :
    (List (List ℕ) → FandConfig → Parsed)
    → CLibrary
    → List (List ℕ)
    → FandConfig
    → List ℕ
    → Option (List (ℕ × ℕ))
    → Parsed
match_line later lib rest config buffer none = ret (negsuc 0, config)
match_line later lib rest config buffer (some pmatch) =
    copy_group key_size buffer (group pmatch 0)
    >>= copy_value later lib rest config buffer (group pmatch 1)

-- What is left of a line without its newline and its comment.
unfoldable pub stripped : List ℕ → List ℕ
stripped line = strip_comments (replaced line b'\n' 0)

unfoldable pub parse_line :
    (List (List ℕ) → FandConfig → Parsed)
    → CLibrary
    → Matcher
    → List (List ℕ)
    → FandConfig
    → List ℕ
    → Parsed
parse_line later lib regex rest config buffer =
    if line_empty buffer
    then later rest config
    else match_line later lib rest config buffer (regex buffer)

-- The end of the function, reached when the file ends.
unfoldable pub check_matrix : FandConfig → ℤ × FandConfig
check_matrix config = (if config.matrix_rows == 0 then negsuc 0 else pos 0, config)

-- The loop over the lines. Each round takes one line at least.
unfoldable pub parse_lines : ℕ → CLibrary → Matcher → List (List ℕ) → FandConfig → Parsed
parse_lines fuel lib regex [] config = ret (check_matrix config)
parse_lines zero lib regex (line ∷ rest) config = out_of_fuel
parse_lines (suc fuel) lib regex (line ∷ rest) config =
    parse_line (parse_lines fuel lib regex) lib regex rest config (stripped line)

unfoldable pub parse_file : CLibrary → Option Matcher → Option (List (List ℕ)) → FandConfig → Parsed
parse_file lib none file config = ret (negsuc 0, config)
parse_file lib (some regex) none config = ret (negsuc 0, config)
parse_file lib (some regex) (some lines) config = parse_lines (length lines) lib regex lines config

-- `config_parse`, of the lines of the file, none where it cannot be opened.
unfoldable pub config_parse : CLibrary → Option (List (List ℕ)) → FandConfig → Parsed
config_parse lib file config = parse_file lib lib.value_regex file config
