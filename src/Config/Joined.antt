-- ===== src/Config/Joined.antt =====
-- `config_append_matrix_rows` of src/fand/config.c writes nothing outside the buffer of the value and ends, and the
-- position that it writes at.
use amdgpu_fand.Base.{
  ℕ, ◌+◌, ◌-◌, ◌<◌, ◌≤◌, ◌≡◌, arith, List, [], ◌∷◌, ltb, take, drop, length, length-append,
  length-take, length-drop, Option, none, some, ℤ, pos, negsuc, pos_part, ◌+ℤ◌, codes, c_string,
  Bool-cases, inl, inr,
}
use amdgpu_fand.Fanctrl.{max_temp_thresholds}
use amdgpu_fand.Serialize.Outcome.{Ensures, >>=-Ensures}
use amdgpu_fand.Strutils.Room.{IsCopied, strscpy-IsCopied, strsncpy-IsCopied}
use amdgpu_fand.Config.CLibrary.{CLibrary, Matcher, group, regmatch_length}
use amdgpu_fand.Config.Append.{
  buffer_size, Appended, advance, add_separator, add_segment, next_line, last_line, match_end,
  match_mid, add_line, append_lines, start_value, start_lines, append_with, append_matrix_rows,
}
use amdgpu_fand.Config.Ranges.{copy_group_ends}

-- The position is in the buffer, and the buffer keeps its size.
abbrev pub IsAt : ℤ × List ℕ → Type 0
IsAt (at, value) = (pos_part at < buffer_size) × (length value ≡ buffer_size)

-- The buffer keeps its size, and no line is put back.
abbrev pub IsAppended : ℕ → ℤ × List ℕ × List (List ℕ) → Type 0
IsAppended left (status, value, rest) = (length value ≡ buffer_size) × (length rest ≤ left)

sum_small :
    (at : ℕ) (n : ℤ)
    → at < buffer_size
    → pos_part n < buffer_size - at
    → pos_part (pos at +ℤ n) < buffer_size
sum_small at (pos n) h k = ground arith
sum_small at (negsuc n) h k = ground arith

advance-IsAt :
    (at : ℕ) (value : List ℕ) (r : ℤ × List ℕ)
    → at < buffer_size
    → length value ≡ buffer_size
    → IsCopied (buffer_size - at) r
    → IsAt (advance at value r)
unfolding advance
advance-IsAt at value (n, tail) h e (small, room) = (
  sum_small at n h small,
  omega (arith, length-append (take at value) tail, length-take at value),
)

module _ (value : List ℕ) (at : ℕ) (h : at < buffer_size) (e : length value ≡ buffer_size) where
  room_left : length (drop at value) ≡ buffer_size - at
  room_left = omega (arith, length-drop at value)

  add_separator-IsAt : Ensures IsAt (add_separator value at)
  unfolding add_separator
  add_separator-IsAt =
      >>=-Ensures (IsCopied (buffer_size - at)) IsAt _ _
        (strscpy-IsCopied (drop at value) (codes ";") (buffer_size - at) (omega arith) room_left)
        (λ r copied. advance-IsAt at value r h e copied)

  add_segment-IsAt : (buffer : List ℕ) (g : ℕ × ℕ) → Ensures IsAt (add_segment value at buffer g)
  unfolding add_segment
  add_segment-IsAt buffer g =
      >>=-Ensures (IsCopied (buffer_size - at)) IsAt _ _
        (strsncpy-IsCopied (drop at value) (drop g.0 buffer) (buffer_size - at) (regmatch_length g)
          (omega arith) room_left)
        (λ r copied. advance-IsAt at value r h e copied)

-- A round, where the rest of the loop is known to behave.
module _ (rest : List (List ℕ)) (left : ℕ) (fewer : length rest ≤ left)
    (later : ℕ → List ℕ → Appended)
    (later_lem : (at : ℕ) (value : List ℕ)
      → at < buffer_size
      → length value ≡ buffer_size
      → Ensures (IsAppended left) (later at value)) where
  next_line-IsAppended :
      (r : ℤ × List ℕ) → IsAt r → Ensures (IsAppended left) (next_line later rest r)
  unfolding next_line
  next_line-IsAppended (negsuc n, value) (h, e) = (e, fewer)
  next_line-IsAppended (pos at, value) (h, e) = later_lem at value h e

  last_line-IsAppended : (r : ℤ × List ℕ) → IsAt r → Ensures (IsAppended left) (last_line rest r)
  unfolding last_line
  last_line-IsAppended (negsuc n, value) (h, e) = (e, fewer)
  last_line-IsAppended (pos at, value) (h, e) = (e, fewer)

  match_end-IsAppended :
      (buffer : List ℕ) (at : ℕ) (value : List ℕ) (found : Option (List (ℕ × ℕ)))
      → at < buffer_size
      → length value ≡ buffer_size
      → Ensures (IsAppended left) (match_end later rest buffer at value found)
  unfolding match_end
  match_end-IsAppended buffer at value none h e = later_lem at value h e
  match_end-IsAppended buffer at value (some pmatch) h e =
      >>=-Ensures IsAt (IsAppended left) _ _ (add_segment-IsAt value at h e buffer (group pmatch 0))
        last_line-IsAppended

  match_mid-IsAppended :
      (end_regex : Matcher) (buffer : List ℕ) (at : ℕ) (value : List ℕ)
      (found : Option (List (ℕ × ℕ)))
      → at < buffer_size
      → length value ≡ buffer_size
      → Ensures (IsAppended left) (match_mid later rest end_regex buffer at value found)
  unfolding match_mid
  match_mid-IsAppended end_regex buffer at value none h e =
      match_end-IsAppended buffer at value (end_regex buffer) h e
  match_mid-IsAppended end_regex buffer at value (some pmatch) h e =
      >>=-Ensures IsAt (IsAppended left) _ _ (add_segment-IsAt value at h e buffer (group pmatch 0))
        next_line-IsAppended

  add_line-IsAppended :
      (mid_regex end_regex : Matcher) (buffer : List ℕ) (r : ℤ × List ℕ)
      → IsAt r
      → Ensures (IsAppended left) (add_line later rest mid_regex end_regex buffer r)
  unfolding add_line
  add_line-IsAppended mid_regex end_regex buffer (negsuc n, value) (h, e) = (e, fewer)
  add_line-IsAppended mid_regex end_regex buffer (pos at, value) (h, e) =
      match_mid-IsAppended end_regex buffer at value (mid_regex buffer) h e

append_lines-IsAppended :
    (mid_regex end_regex : Matcher) (lines : List (List ℕ)) (left matrix_rows at : ℕ)
    (value : List ℕ)
    → length lines ≤ left
    → at < buffer_size
    → length value ≡ buffer_size
    → Ensures (IsAppended left) (append_lines mid_regex end_regex lines matrix_rows at value)
unfolding append_lines
append_lines-IsAppended mid_regex end_regex [] left matrix_rows at value fewer h e =
    (e, omega arith)
append_lines-IsAppended mid_regex end_regex (buffer ∷ rest) left matrix_rows at value fewer h e =
    elim (Bool-cases (ltb max_temp_thresholds (matrix_rows + 1))) [
      | inl full ↦ rw full (e, omega arith)
      | inr fits ↦ rw fits (
          >>=-Ensures IsAt (IsAppended left) _ _ (add_separator-IsAt value at h e) (
            add_line-IsAppended rest left (omega arith)
              (append_lines mid_regex end_regex rest (matrix_rows + 1))
              (λ at' value' h' e'.
                append_lines-IsAppended mid_regex end_regex rest left (matrix_rows + 1) at' value'
                  (omega arith) h' e')
              mid_regex end_regex buffer))
    ]

module _ (lines : List (List ℕ)) (value : List ℕ) (e : length value ≡ buffer_size) where
  start_value-IsAppended :
      (mid_regex end_regex : Matcher) (buffer : Option (List ℕ))
      → Ensures (IsAppended (length lines)) (start_value mid_regex end_regex lines value buffer)
  unfolding start_value
  start_value-IsAppended mid_regex end_regex none = (e, omega arith)
  start_value-IsAppended mid_regex end_regex (some buffer) =
      >>=-Ensures IsAt (IsAppended (length lines)) _ _
        (strscpy-IsCopied value buffer buffer_size (omega arith) e)
        (next_line-IsAppended lines (length lines) (omega arith)
          (append_lines mid_regex end_regex lines 0)
          (λ at value' h e'.
            append_lines-IsAppended mid_regex end_regex lines (length lines) 0 at value'
              (omega arith) h e'))

  start_lines-IsAppended :
      (mid_regex end_regex : Matcher) (found : Option (List (ℕ × ℕ)))
      → Ensures (IsAppended (length lines)) (start_lines mid_regex end_regex lines value found)
  unfolding start_lines
  start_lines-IsAppended mid_regex end_regex none = (e, omega arith)
  start_lines-IsAppended mid_regex end_regex (some pmatch) =
      >>=-Ensures (λ r. Unit {0}) (IsAppended (length lines)) _ _
        (copy_group_ends buffer_size (c_string value) (group pmatch 0) (omega arith))
        (λ buffer u. start_value-IsAppended mid_regex end_regex buffer)

  append_with-IsAppended :
      (start mid end : Option Matcher)
      → Ensures (IsAppended (length lines)) (append_with start mid end lines value)
  unfolding append_with
  append_with-IsAppended none mid end = (e, omega arith)
  append_with-IsAppended (some start) none end = (e, omega arith)
  append_with-IsAppended (some start) (some mid) none = (e, omega arith)
  append_with-IsAppended (some start) (some mid) (some end) =
      start_lines-IsAppended mid end (start (c_string value))

  -- Whatever the expressions match, a value in a buffer of 256 bytes is replaced in that buffer, and the call ends.
  pub append_matrix_rows-IsAppended :
      (lib : CLibrary) → Ensures (IsAppended (length lines)) (append_matrix_rows lib lines value)
  unfolding append_matrix_rows
  append_matrix_rows-IsAppended lib =
      append_with-IsAppended lib.start_regex lib.mid_regex lib.end_regex
