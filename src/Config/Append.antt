-- ===== src/Config/Append.antt =====
-- `config_append_matrix_rows` of src/fand/config.c: the lines of a matrix are put behind one another in the
-- buffer of the value.
use amdgpu_fand.Base.{
  ℕ, ◌+◌, ◌-◌, List, [], ◌∷◌, ◌++◌, ltb, if◌then◌else◌, take, drop, Option, none, some, ℤ, pos,
  negsuc, ◌+ℤ◌, codes, c_string,
}
use amdgpu_fand.Fanctrl.{max_temp_thresholds}
use amdgpu_fand.Serialize.Outcome.{Outcome, ret, ◌>>=◌}
use amdgpu_fand.Strutils.{strscpy, strsncpy}
use amdgpu_fand.Config.CLibrary.{CLibrary, Matcher, group, regmatch_length, copy_group}

-- CONFIG_BUFFER_SIZE
abbrev pub buffer_size : ℕ
buffer_size = 256

-- The status, the buffer of the value, and the lines not read.
abbrev pub Appended : Type 0
Appended = Outcome (ℤ × List ℕ × List (List ℕ))

-- `pos += ...` for a call that writes to `value + pos`: the sum, and the whole buffer.
unfoldable pub advance : ℕ → List ℕ → ℤ × List ℕ → ℤ × List ℕ
advance at value (n, tail) = (pos at +ℤ n, take at value ++ tail)

unfoldable pub add_separator : List ℕ → ℕ → Outcome (ℤ × List ℕ)
add_separator value at =
    strscpy (drop at value) (codes ";") (buffer_size - at) >>= λ r. ret (advance at value r)

unfoldable pub add_segment : List ℕ → ℕ → List ℕ → ℕ × ℕ → Outcome (ℤ × List ℕ)
add_segment value at buffer g =
    strsncpy (drop at value) (drop g.0 buffer) (buffer_size - at) (regmatch_length g) >>= λ r.
    ret (advance at value r)

-- The loop goes on where the sum is not negative.
unfoldable pub next_line : (ℕ → List ℕ → Appended) → List (List ℕ) → ℤ × List ℕ → Appended
next_line later rest (negsuc n, value) = ret (negsuc 0, value, rest)
next_line later rest (pos at, value) = later at value

-- The last line ends the loop.
unfoldable pub last_line : List (List ℕ) → ℤ × List ℕ → Appended
last_line rest (negsuc n, value) = ret (negsuc 0, value, rest)
last_line rest (pos at, value) = ret (pos 0, value, rest)

unfoldable pub match_end :
    (ℕ → List ℕ → Appended) → List (List ℕ) → List ℕ → ℕ → List ℕ → Option (List (ℕ × ℕ)) → Appended
match_end later rest buffer at value none = later at value
match_end later rest buffer at value (some pmatch) =
    add_segment value at buffer (group pmatch 0) >>= last_line rest

unfoldable pub match_mid :
    (ℕ → List ℕ → Appended)
    → List (List ℕ)
    → Matcher
    → List ℕ
    → ℕ
    → List ℕ
    → Option (List (ℕ × ℕ))
    → Appended
match_mid later rest end_regex buffer at value none =
    match_end later rest buffer at value (end_regex buffer)
match_mid later rest end_regex buffer at value (some pmatch) =
    add_segment value at buffer (group pmatch 0) >>= next_line later rest

-- The part of a round behind the separator.
unfoldable pub add_line :
    (ℕ → List ℕ → Appended) → List (List ℕ) → Matcher → Matcher → List ℕ → ℤ × List ℕ → Appended
add_line later rest mid_regex end_regex buffer (negsuc n, value) = ret (negsuc 0, value, rest)
add_line later rest mid_regex end_regex buffer (pos at, value) =
    match_mid later rest end_regex buffer at value (mid_regex buffer)

-- The loop over the lines that fgets gives.
unfoldable pub append_lines : Matcher → Matcher → List (List ℕ) → ℕ → ℕ → List ℕ → Appended
append_lines mid_regex end_regex [] matrix_rows at value = ret (negsuc 0, value, [])
append_lines mid_regex end_regex (buffer ∷ rest) matrix_rows at value =
    if ltb max_temp_thresholds (matrix_rows + 1)
    then ret (negsuc 0, value, rest)
    else (add_separator value at
        >>= add_line (append_lines mid_regex end_regex rest (matrix_rows + 1)) rest mid_regex
            end_regex buffer)

-- The copy of the first segment back to the value.
unfoldable pub start_value : Matcher → Matcher → List (List ℕ) → List ℕ → Option (List ℕ) → Appended
start_value mid_regex end_regex lines value none = ret (negsuc 0, value, lines)
start_value mid_regex end_regex lines value (some buffer) =
    strscpy value buffer buffer_size >>= λ r.
    next_line (append_lines mid_regex end_regex lines 0) lines r

unfoldable pub start_lines :
    Matcher → Matcher → List (List ℕ) → List ℕ → Option (List (ℕ × ℕ)) → Appended
start_lines mid_regex end_regex lines value none = ret (negsuc 0, value, lines)
start_lines mid_regex end_regex lines value (some pmatch) =
    copy_group buffer_size (c_string value) (group pmatch 0)
    >>= start_value mid_regex end_regex lines value

-- The compilation of the three expressions.
unfoldable pub append_with :
    Option Matcher → Option Matcher → Option Matcher → List (List ℕ) → List ℕ → Appended
append_with none mid end lines value = ret (negsuc 0, value, lines)
append_with (some start) none end lines value = ret (negsuc 0, value, lines)
append_with (some start) (some mid) none lines value = ret (negsuc 0, value, lines)
append_with (some start) (some mid) (some end) lines value =
    start_lines mid end lines value (start (c_string value))

-- `config_append_matrix_rows`.
unfoldable pub append_matrix_rows : CLibrary → List (List ℕ) → List ℕ → Appended
append_matrix_rows lib lines value =
    append_with lib.start_regex lib.mid_regex lib.end_regex lines value
