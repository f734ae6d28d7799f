-- ===== src/Strutils/Tests.antt =====
-- Tests of the string helpers.
use amdgpu_fand.Base.{
  ℕ, ◌≡◌, refl, arith, List, [], ◌∷◌, ◌||◌, ltb, if◌then◌else◌, none, some, pos, neg, e2big, einval,
  codes, ◌↔◌,
}
use amdgpu_fand.Serialize.Outcome.{ret}
use amdgpu_fand.Strutils.{strscpy, strsncpy, parsed, strstoul, in_range, strstoul_range}
use amdgpu_fand.Strutils.Copy.{strscpy-copied, strsncpy-copied_n}
use amdgpu_fand.Strutils.Range.{IsNumber, strstoul_range-IsNumber}

-- The code of one decimal digit, for the number, and what stands behind it.
abbrev one_digit : List ℕ → ℕ × List ℕ
one_digit [] = (0, [])
one_digit (c ∷ rest) = if ltb c 48 || ltb 57 c then (0, c ∷ rest) else (c, rest)

range_table :
    (strstoul_range one_digit (codes "7") 50 55 ≡ (pos 0, some 55))
    × (strstoul_range one_digit (codes "7") 50 54 ≡ (neg einval, some 55))
    × (strstoul_range one_digit (codes "7x") 50 55 ≡ (neg einval, some 55))
    × (strstoul_range one_digit [] 0 9 ≡ (neg einval, none))
unfolding strstoul_range strstoul parsed in_range
range_table = (refl, refl, refl, refl)

strscpy-copied_example :
    strscpy (1 ∷ 2 ∷ 3 ∷ 4 ∷ []) (codes "abc") 3 ≡ ret (neg e2big, b'a' ∷ b'b' ∷ 0 ∷ 4 ∷ [])
strscpy-copied_example = strscpy-copied (1 ∷ 2 ∷ 3 ∷ 4 ∷ []) (codes "abc") 2 (omega arith)

strsncpy-copied_n_example :
    strsncpy (1 ∷ 2 ∷ 3 ∷ 4 ∷ []) (codes "abc") 4 2 ≡ ret (pos 2, b'a' ∷ b'b' ∷ 0 ∷ 4 ∷ [])
strsncpy-copied_n_example =
    strsncpy-copied_n (1 ∷ 2 ∷ 3 ∷ 4 ∷ []) (codes "abc") 4 2 (omega arith) (omega arith)

strstoul_range-IsNumber_example :
    (strstoul_range one_digit (codes "7") 50 55 ≡ (pos 0, some 55))
    ↔ IsNumber one_digit (codes "7") 50 55 55
strstoul_range-IsNumber_example = strstoul_range-IsNumber one_digit (codes "7") 50 55 55
