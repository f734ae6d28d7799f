-- ===== src/Config/Ranges.antt =====
-- `config_set_matrix` of src/fand/config.c accesses no memory outside its objects and ends, and what it stores is in
-- range.
use amdgpu_fand.Base.{
  ℕ, zero, suc, ◌+◌, ◌%◌, ◌^◌, ◌<◌, ◌≤◌, ◌≡◌, refl, arith, List, [], ◌∷◌, false, ◌==◌, drop, Option,
  none, some, ℤ, pos, negsuc, is_negative, Bool-cases, inl, inr, replicate, length-replicate,
}
use amdgpu_fand.Fanctrl.{FandConfig, max_temp_thresholds}
use amdgpu_fand.Serialize.Outcome.{Ensures, >>=-Ensures}
use amdgpu_fand.Strutils.{strstoul_range}
use amdgpu_fand.Strutils.Range.{strstoul_range-IsNumber}
use amdgpu_fand.Strutils.Room.{IsCopied, strsncpy-IsCopied}
use amdgpu_fand.Config.CLibrary.{CLibrary, Matcher, group, regmatch_length, strchr, copy_group}
use amdgpu_fand.Config.Setting.{uchar_max}
use amdgpu_fand.Config.Matrix.{
  numbuf_size, accepted, number_of, read_part, read_speed, read_row, store_row, next_segment, Rows,
  keep_row, match_row, set_rows, finish_matrix, set_matrix_with, set_matrix,
}
use amdgpu_fand.Config.Settings.{IsSettings, IsRow, store_row-IsSettings, rows-IsSettings}

-- A group is copied to a buffer with room.
pub copy_group_ends :
    (size : ℕ) (src : List ℕ) (g : ℕ × ℕ)
    → 0 < size
    → Ensures (λ r. Unit {0}) (copy_group size src g)
unfolding copy_group
copy_group_ends size src g some_room =
    >>=-Ensures (IsCopied size) (λ r. Unit {0}) _ _
      (strsncpy-IsCopied (replicate size 0) (drop g.0 src) size (regmatch_length g) some_room
        (length-replicate size 0))
      (λ r copied. tt)

-- A number that was read, if any, is at most `high`.
abbrev pub AtMost : ℕ → Option ℕ → Type 0
AtMost high none = Unit {0}
AtMost high (some v) = v ≤ high

accepted-some : (r : ℤ × Option ℕ) (v : ℕ) → accepted r ≡ some v → r ≡ (pos 0, some v)
unfolding accepted
accepted-some (pos zero, stored) v e = cc
accepted-some (pos (suc n), stored) v e = cc
accepted-some (negsuc n, stored) v e = cc

accepted-AtMost :
    (lib : CLibrary) (high : ℕ) (src : List ℕ) (o : Option ℕ)
    → accepted (strstoul_range lib.strtoul src 0 high) ≡ o
    → AtMost high o
accepted-AtMost lib high src none e = tt
accepted-AtMost lib high src (some v) e =
    let (nonempty, all, lo, hi) =
      (strstoul_range-IsNumber lib.strtoul src 0 high v).0 (accepted-some _ v e) in
    hi

number_of-AtMost :
    (lib : CLibrary) (high : ℕ) (numbuf : Option (List ℕ)) → AtMost high (number_of lib high numbuf)
unfolding number_of
number_of-AtMost lib high none = tt
number_of-AtMost lib high (some numbuf) = accepted-AtMost lib high numbuf _ refl

read_part-AtMost :
    (lib : CLibrary) (value : List ℕ) (g : ℕ × ℕ) (high : ℕ)
    → Ensures (AtMost high) (read_part lib value g high)
unfolding read_part
read_part-AtMost lib value g high =
    >>=-Ensures (λ numbuf. Unit {0}) (AtMost high) _ _
      (copy_group_ends numbuf_size value g (omega arith))
      (λ numbuf u. number_of-AtMost lib high numbuf)

-- The numbers of a row, if any, are in range.
abbrev pub IsRead : Option (ℕ × ℕ) → Type 0
IsRead none = Unit {0}
IsRead (some numbers) = IsRow numbers

read_speed-IsRead :
    (lib : CLibrary) (value : List ℕ) (g : ℕ × ℕ) (temp : Option ℕ)
    → Ensures IsRead (read_speed lib value g temp)
unfolding read_speed
read_speed-IsRead lib value g none = tt
read_speed-IsRead lib value g (some temp) =
    >>=-Ensures (AtMost 100) IsRead _ _ (read_part-AtMost lib value g 100) (λ ul h.
      elim ul
          as (λ ul.
            AtMost 100 ul
            → IsRead (elim ul [ none ↦ none | some speed ↦ some (temp % 2 ^ 8, speed % 2 ^ 8) ])) [
              | none ↦ λ h. tt
              | some speed ↦ λ h. (omega arith, omega arith)
            ]
        h)

read_row-IsRead :
    (lib : CLibrary) (value : List ℕ) (pmatch : List (ℕ × ℕ))
    → Ensures IsRead (read_row lib value pmatch)
unfolding read_row
read_row-IsRead lib value pmatch =
    >>=-Ensures (AtMost uchar_max) IsRead _ _
      (read_part-AtMost lib value (group pmatch 0) uchar_max)
      (λ temp h. read_speed-IsRead lib value (group pmatch 1) temp)

-- After the loop the row is between the two where it did not fail, and the settings are in range.
abbrev IsMoved : ℕ → ℕ → ℤ × ℕ × FandConfig → Type 0
IsMoved lo hi (status, row, config) =
    (is_negative status ≡ false → lo ≤ row) × (row ≤ hi) × IsSettings config

module _ (lo hi : ℕ) (later : ℕ → Option (List ℕ) → FandConfig → Rows) (row : ℕ)
    (later_moves : (value : Option (List ℕ)) (config : FandConfig)
      → IsSettings config
      → Ensures (IsMoved lo hi) (later (row + 1) value config))
    (fits : row ≤ hi) where
  keep_row-IsMoved :
      (c : ℕ) (value : List ℕ) (config : FandConfig) (numbers : Option (ℕ × ℕ))
      → IsSettings config
      → IsRead numbers
      → Ensures (IsMoved lo hi) (keep_row later (c ∷ value) row config numbers)
  unfolding keep_row next_segment
  keep_row-IsMoved c value config none ok read = (λ e. cc, fits, ok)
  keep_row-IsMoved c value config (some numbers) ok read =
      later_moves (strchr value b';') (store_row config row numbers)
        (store_row-IsSettings config row numbers ok read)

  match_row-IsMoved :
      (lib : CLibrary) (regex : Matcher) (value : List ℕ) (config : FandConfig)
      (found : Option (List (ℕ × ℕ)))
      → regex [] ≡ none
      → regex value ≡ found
      → IsSettings config
      → Ensures (IsMoved lo hi) (match_row later lib value row config found)
  unfolding match_row
  match_row-IsMoved lib regex value config none empty e ok = (λ e. cc, fits, ok)
  match_row-IsMoved lib regex [] config (some pmatch) empty e ok = absurd (cc)
  match_row-IsMoved lib regex (c ∷ value) config (some pmatch) empty e ok =
      >>=-Ensures IsRead (IsMoved lo hi) _ _ (read_row-IsRead lib (c ∷ value) pmatch)
        (λ numbers read. keep_row-IsMoved c value config numbers ok read)

set_rows-IsMoved :
    (lo hi : ℕ) (lib : CLibrary) (regex : Matcher) (left row : ℕ) (value : Option (List ℕ))
    (config : FandConfig)
    → lo ≤ row
    → row + left ≤ hi
    → regex [] ≡ none
    → IsSettings config
    → Ensures (IsMoved lo hi) (set_rows lib regex left row value config)
unfolding set_rows
set_rows-IsMoved lo hi lib regex zero row value config low high empty ok =
    (λ e. low, omega arith, ok)
set_rows-IsMoved lo hi lib regex (suc left) row none config low high empty ok =
    (λ e. low, omega arith, ok)
set_rows-IsMoved lo hi lib regex (suc left) row (some value) config low high empty ok =
    match_row-IsMoved lo hi (set_rows lib regex left) row
      (λ next config' ok'.
        set_rows-IsMoved lo hi lib regex left (row + 1) next config' (omega arith) (omega arith)
          empty ok')
      (omega arith) lib regex value config (regex value) empty refl ok

-- The first round is made, so that a loop that does not fail has stored a row.
first_row-IsMoved :
    (lib : CLibrary) (regex : Matcher) (value : List ℕ) (config : FandConfig)
    → regex [] ≡ none
    → IsSettings config
    → Ensures
        (IsMoved 1 max_temp_thresholds)
        (set_rows lib regex max_temp_thresholds 0 (some value) config)
unfolding set_rows
first_row-IsMoved lib regex value config empty ok =
    match_row-IsMoved 1 max_temp_thresholds (set_rows lib regex 15) 0
      (λ next config' ok'.
        set_rows-IsMoved 1 max_temp_thresholds lib regex 15 1 next config' (omega arith)
          (omega arith) empty ok')
      (omega arith) lib regex value config (regex value) empty refl ok

-- The settings that a call leaves are in range; where it succeeds there is a row.
abbrev pub LeavesMatrix : ℤ × FandConfig → Type 0
LeavesMatrix (status, config) =
    (is_negative status ≡ false → 1 ≤ config.matrix_rows) × IsSettings config

finish_matrix-LeavesMatrix :
    (r : ℤ × ℕ × FandConfig) → IsMoved 1 max_temp_thresholds r → LeavesMatrix (finish_matrix r)
unfolding finish_matrix
finish_matrix-LeavesMatrix (negsuc n, row, config) (low, high, ok) = (λ e. cc, ok)
finish_matrix-LeavesMatrix (pos n, row, config) (low, high, ok) =
    elim (Bool-cases (row == max_temp_thresholds)) [
      | inl full ↦ rw full (λ e. cc, ok)
      | inr fits ↦ rw fits (λ e. low refl, rows-IsSettings config row ok (ground arith))
    ]

-- The expression of a matrix matches no empty string.
abbrev pub RejectsEmpty : CLibrary → Type 0
RejectsEmpty lib = (regex : Matcher) → lib.matrix_regex ≡ some regex → regex [] ≡ none

set_matrix_with-LeavesMatrix :
    (lib : CLibrary) (regex : Option Matcher) (config : FandConfig) (value : List ℕ)
    → RejectsEmpty lib
    → lib.matrix_regex ≡ regex
    → IsSettings config
    → Ensures LeavesMatrix (set_matrix_with lib regex config value)
unfolding set_matrix_with
set_matrix_with-LeavesMatrix lib none config value rejects e ok = (λ e. cc, ok)
set_matrix_with-LeavesMatrix lib (some regex) config value rejects e ok =
    >>=-Ensures (IsMoved 1 max_temp_thresholds) LeavesMatrix _ _
      (first_row-IsMoved lib regex value config (rejects regex e) ok)
      (λ r moved. finish_matrix-LeavesMatrix r moved)

pub set_matrix-LeavesMatrix :
    (lib : CLibrary) (config : FandConfig) (value : List ℕ)
    → RejectsEmpty lib
    → IsSettings config
    → Ensures LeavesMatrix (set_matrix lib config value)
unfolding set_matrix
set_matrix-LeavesMatrix lib config value rejects ok =
    set_matrix_with-LeavesMatrix lib lib.matrix_regex config value rejects refl ok
