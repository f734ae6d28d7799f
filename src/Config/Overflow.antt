-- ===== src/Config/Overflow.antt =====
-- The position in `config_append_matrix_rows` of src/fand/config.c where a row does not fit behind the rows before it.
use amdgpu_fand.Base.{
  ℕ, ◌-◌, ◌<◌, ◌≤◌, ◌≡◌, refl, arith, List, ◌==◌, leb, ltb, true, false, drop, length, length-drop,
  ℤ, pos, neg, e2big, is_negative,
}
use amdgpu_fand.Serialize.Outcome.{Ensures, >>=-Ensures}
use amdgpu_fand.Strutils.{terminate_n, strsncpy}
use amdgpu_fand.Config.CLibrary.{regmatch_length}
use amdgpu_fand.Config.Append.{buffer_size, advance, add_segment}

-- A call that cuts the source gives -E2BIG.
strsncpy_large :
    (dst src : List ℕ) (size n : ℕ)
    → 0 < size
    → length dst ≡ size
    → size ≤ n
    → Ensures (λ r. r.0 ≡ neg e2big) (strsncpy dst src size n)
unfolding strsncpy terminate_n
strsncpy_large dst src size n some_room e large =
    let nonzero : (size == 0) ≡ false = ground arith in
    let cut : leb size n ≡ true = ground arith in
    let inside : ltb (length dst) size ≡ false = ground arith in rw (nonzero, cut, inside) refl

-- The sum of a position and -E2BIG: the error shows at the first seven positions only.
abbrev pub IsOverflow : ℕ → ℤ × List ℕ → Type 0
IsOverflow at (sum, value) =
    (at < e2big → is_negative sum ≡ true) × (e2big ≤ at → sum ≡ pos (at - e2big))

advance-IsOverflow :
    (at : ℕ) (value : List ℕ) (r : ℤ × List ℕ)
    → r.0 ≡ neg e2big
    → IsOverflow at (advance at value r)
unfolding advance
advance-IsOverflow at value (n, tail) e = rw e ((λ few. ground arith), (λ many. ground arith))

-- Where a segment has no room behind the position in the buffer of 256 bytes, -E2BIG, which is -7, is added to
-- the position: the sum is negative, which the code takes for an error, only where fewer than seven characters
-- are in the buffer; else the position moves back by seven.
pub add_segment-IsOverflow :
    (value : List ℕ) (at : ℕ) (buffer : List ℕ) (g : ℕ × ℕ)
    → at < buffer_size
    → length value ≡ buffer_size
    → buffer_size - at ≤ regmatch_length g
    → Ensures (IsOverflow at) (add_segment value at buffer g)
unfolding add_segment
add_segment-IsOverflow value at buffer g h room large =
    >>=-Ensures (λ r. r.0 ≡ neg e2big) (IsOverflow at) _ _
      (strsncpy_large (drop at value) (drop g.0 buffer) (buffer_size - at) (regmatch_length g)
        (omega arith) (omega (arith, length-drop at value)) large)
      (λ r e. advance-IsOverflow at value r e)
