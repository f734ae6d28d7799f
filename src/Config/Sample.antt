-- ===== src/Config/Sample.antt =====
-- A C library and a configuration file for the tests, with expressions that are matched by hand.
use amdgpu_fand.Base.{
  ℕ, zero, set, suc, ◌+◌, ◌-◌, ◌*◌, ◌≡◌, ◌≢◌, sym, get_or, refl, ap, arith, List, [], ◌∷◌, ◌++◌,
  Bool, true, false, ◌==◌, ◌||◌, not, ltb, if◌then◌else◌, All, drop, length, replicate, Option,
  none, some, pos, codes, c_string, same_string,
}
use amdgpu_fand.Fanctrl.{FandConfig}
use amdgpu_fand.Serialize.Outcome.{ret}
use amdgpu_fand.Config.CLibrary.{
  line_empty, strip_comments, replaced, replace_char, is_blank, copy_group, left_string,
}
use amdgpu_fand.Config.File.{
  parse_file, parse_lines, parse_line, stripped, match_line, copy_value, check_matrix, config_map,
  dispatch, dispatch_matrix, find_handler, go_on, handle, set_key,
}
use amdgpu_fand.Config.Append.{
  add_line, add_separator, advance, append_lines, append_with, last_line, match_end, match_mid,
  next_line, start_lines, start_value,
}
use amdgpu_fand.Config.Matrix.{
  accepted, finish_matrix, keep_row, match_row, next_segment, number_of, read_part, read_row,
  read_speed, set_matrix_with, set_rows, store_row,
}
use amdgpu_fand.Config.Setting.{
  set_hysteresis, set_interval, set_throttle, store_hysteresis, store_interval,
}
use amdgpu_fand.Strutils.{
  strsncpy, copy, in_range, parsed, strscpy, strstoul, strstoul_range, strtolower, terminate,
  terminate_n,
}
use amdgpu_fand.Config.CLibrary.{CLibrary, Matcher, strchr, regmatch_length}
use amdgpu_fand.Config.Matrix.{set_matrix}
use amdgpu_fand.Config.Append.{add_segment, append_matrix_rows}
use amdgpu_fand.Config.File.{config_parse}
use amdgpu_fand.Config.Settings.{IsSettings}
use amdgpu_fand.Config.Ranges.{RejectsEmpty}
use amdgpu_fand.Config.Text.{IsDigit, row_text, FindsRow}
use amdgpu_fand.Config.Written.{drop_numbers}

abbrev is_digit : ℕ → Bool
is_digit c = not (ltb c b'0' || ltb b'9' c)

-- The digits that a text begins with.
abbrev digit_count : List ℕ → ℕ
digit_count [] = 0
digit_count (c ∷ s) = if is_digit c then suc (digit_count s) else 0

abbrev row_groups : ℕ → ℕ → Option (List (ℕ × ℕ))
row_groups n m = if n == 0 || m == 0 then none else some ((2, n + 2) ∷ (n + 4, m + (n + 4)) ∷ [])

-- A row at the start of the text.
unfoldable pub row_at : Matcher
row_at s = row_groups (digit_count (drop 2 s)) (digit_count (drop (digit_count (drop 2 s) + 4) s))

digit_count-All :
    (t rest : List ℕ) (c : ℕ)
    → All IsDigit t
    → is_digit c ≡ false
    → digit_count (t ++ (c ∷ rest)) ≡ length t
digit_count-All [] rest c d other = rw other refl
digit_count-All (x ∷ t) rest c (d, ds) other =
    let digit : is_digit x ≡ true = ground arith in
    rw digit (ap suc (digit_count-All t rest c ds other))

groups_found :
    (t s : List ℕ)
    → t ≢ []
    → s ≢ []
    → row_groups (length t) (length s)
      ≡ some ((2, length t + 2) ∷ (length t + 4, length s + (length t + 4)) ∷ [])
groups_found [] s h k = absurd (h refl)
groups_found (x ∷ t) [] h k = absurd (k refl)
groups_found (x ∷ t) (y ∷ s) h k = ground arith

pub row_at-FindsRow : FindsRow row_at
unfolding row_at row_text
row_at-FindsRow c c' t s rest opens closes dt ds ht hs =
    rw
      (
        digit_count-All t (b':' ∷ (s ++ (b'\'' ∷ c' ∷ rest))) b':' dt refl,
        drop_numbers c b'\'' t s (c' ∷ rest),
        digit_count-All s (c' ∷ rest) b'\'' ds refl,
      )
      (groups_found t s ht hs)

-- The number that a text begins with, and the rest.
abbrev number_from : ℕ → List ℕ → ℕ × List ℕ
number_from acc [] = (acc, [])
number_from acc (c ∷ s) = if is_digit c then number_from (10 * acc + (c - b'0')) s else (acc, c ∷ s)

abbrev pub read_number : List ℕ → ℕ × List ℕ
read_number s = number_from 0 s

-- The characters before the first `c`.
abbrev count_before : ℕ → List ℕ → ℕ
count_before c [] = 0
count_before c (x ∷ s) = if x == c then 0 else suc (count_before c s)

abbrev key_and_value : Matcher
key_and_value s = some ((0, count_before b'=' s) ∷ (suc (count_before b'=' s), length s) ∷ [])

-- A line without its newline.
abbrev whole_line : Matcher
whole_line s = some ((0, count_before b'\n' s) ∷ [])

abbrev open_line : Matcher
open_line s = if count_before b')' s == length s then whole_line s else none

abbrev pub lib : CLibrary
lib = record {
  value_regex = some key_and_value;
  matrix_regex = some row_at;
  start_regex = some whole_line;
  mid_regex = some open_line;
  end_regex = some whole_line;
  tolower = λ c. c;
  strtoul = read_number;
}

abbrev matches_empty : Option Matcher → Option (List (ℕ × ℕ))
matches_empty none = none
matches_empty (some regex) = regex []

pub lib-RejectsEmpty : RejectsEmpty lib
unfolding row_at
lib-RejectsEmpty regex e = sym (ap matches_empty e)

abbrev pub file : List (List ℕ)
file =
    codes "interval=7\n"
    ∷ codes "# a comment\n"
    ∷ codes "matrix=('50::20'\n"
    ∷ codes "'70::90')\n"
    ∷ []

abbrev pub cleared : FandConfig
cleared = record {
  throttle = false;
  matrix_rows = 0;
  hysteresis = 0;
  interval = 0;
  matrix = replicate 32 0;
}

get_or-replicate : (n i : ℕ) → get_or (replicate {A = ℕ} n 0) i 0 ≡ 0
get_or-replicate zero i = refl
get_or-replicate (suc n) zero = refl
get_or-replicate (suc n) (suc i) = get_or-replicate n i

pub cleared-IsSettings : IsSettings cleared
cleared-IsSettings = record {
  room = refl;
  temp_max = λ i. omega (arith, get_or-replicate 32 i);
  speed_max = λ i. omega (arith, get_or-replicate 32 (2 * i + 1));
  rows_max = omega arith;
  interval_max = omega arith;
  hysteresis_max = omega arith;
}

-- The settings that the file leaves, whatever was there before.
abbrev pub loaded : FandConfig → FandConfig
loaded config = record config {
  matrix_rows = 2;
  interval = 7;
  matrix = set (set (set (set config.matrix 0 50) 1 20) 2 70) 3 90;
}

pub load_file :
    (config : FandConfig) → config_parse lib (some file) config ≡ ret (pos 0, loaded config)
unfolding config_parse parse_file parse_lines parse_line line_empty stripped strip_comments replaced
    c_string replace_char is_blank match_line copy_group strsncpy regmatch_length copy_value
    left_string same_string add_line add_segment add_separator advance append_lines
    append_matrix_rows append_with last_line match_end match_mid next_line start_lines start_value
    strchr check_matrix config_map dispatch dispatch_matrix find_handler go_on handle set_key
    accepted finish_matrix keep_row match_row next_segment number_of read_part read_row read_speed
    set_matrix set_matrix_with set_rows store_row set_hysteresis set_interval set_throttle
    store_hysteresis store_interval copy in_range parsed strscpy strstoul strstoul_range strtolower
    terminate terminate_n row_at
load_file config = refl
