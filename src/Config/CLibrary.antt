-- ===== src/Config/CLibrary.antt =====
-- What src/fand/config.c takes from the C library, and its use of strings.
use amdgpu_fand.Base.{
  ℕ, ◌-◌, List, [], ◌∷◌, Bool, true, ◌||◌, ◌&&◌, ◌==◌, if◌then◌else◌, drop, get_or, replicate,
  Option, none, some, ℤ, pos, negsuc, c_string,
}
use amdgpu_fand.Serialize.Outcome.{Outcome, ret, ◌>>=◌}
use amdgpu_fand.Strutils.{strsncpy}

-- `regexec` on a compiled expression: none where it does not match, the offsets of the groups from 1 on where it
-- does.
abbrev pub Matcher : Type 0
Matcher = List ℕ → Option (List (ℕ × ℕ))

-- The expressions of the file, none where `regcomp` refuses one, so that `regcomp_info` of src/common/regutils.c returns
-- -1; `tolower`; and `strtoul` with the number and the characters behind it.
pub record CLibrary : Type 0 where
  pub value_regex : Option Matcher
  pub matrix_regex : Option Matcher
  pub start_regex : Option Matcher
  pub mid_regex : Option Matcher
  pub end_regex : Option Matcher
  pub tolower : ℕ → ℕ
  pub strtoul : List ℕ → ℕ × List ℕ

-- The group `i + 1` of a match.
abbrev pub group : List (ℕ × ℕ) → ℕ → ℕ × ℕ
group pmatch i = get_or pmatch i (0, 0)

unfoldable pub regmatch_length : ℕ × ℕ → ℕ
regmatch_length (so, eo) = eo - so

-- strchr: the characters from the first `c` on.
unfoldable pub strchr : List ℕ → ℕ → Option (List ℕ)
strchr [] c = none
strchr (a ∷ s) c = if a == c then some (a ∷ s) else strchr s c

unfoldable pub replace_char : List ℕ → ℕ → ℕ → List ℕ
replace_char [] from to = []
replace_char (a ∷ s) from to = if a == from then to ∷ s else a ∷ replace_char s from to

-- The string left when the first `from` is overwritten with `to`.
unfoldable pub replaced : List ℕ → ℕ → ℕ → List ℕ
replaced buffer from to = c_string (replace_char buffer from to)

unfoldable pub strip_comments : List ℕ → List ℕ
strip_comments buffer = replaced buffer b'#' 0

unfoldable pub is_blank : ℕ → Bool
is_blank c = c == b' ' || c == 12 || c == b'\n' || c == b'\r' || c == b'\t'

unfoldable pub line_empty : List ℕ → Bool
line_empty [] = true
line_empty (c ∷ s) = is_blank c && line_empty s

-- The string that a call of strsncpy leaves, none where it returns an error.
unfoldable pub left_string : ℤ × List ℕ → Option (List ℕ)
left_string (negsuc n, dst) = none
left_string (pos n, dst) = some (c_string dst)

-- A group copied to a buffer of `size` bytes. What the buffer held before does not show.
unfoldable pub copy_group : ℕ → List ℕ → ℕ × ℕ → Outcome (Option (List ℕ))
copy_group size src g =
    strsncpy (replicate size 0) (drop g.0 src) size (regmatch_length g) >>= λ r. ret (left_string r)
