-- ===== src/Strutils/Range.antt =====
-- `strstoul_range` of src/common/strutils.c.
use amdgpu_fand.Base.{
  ℕ, zero, suc, ◌≤◌, ◌≡◌, ◌≢◌, refl, arith, List, [], ◌∷◌, Option, none, some, ℤ, pos, negsuc, ◌↔◌,
}
use amdgpu_fand.Strutils.{parsed, strstoul, in_range, strstoul_range}

in_range_accepts :
    (low high v : ℕ) (r : ℤ × Option ℕ)
    → in_range low high r ≡ (pos 0, some v)
    → (r ≡ (pos 0, some v)) × (low ≤ v) × (v ≤ high)
unfolding in_range
in_range_accepts low high v (pos zero, some w) e = ground arith
in_range_accepts low high v (pos zero, none) e = ground arith
in_range_accepts low high v (pos (suc n), o) e = ground arith
in_range_accepts low high v (negsuc n, o) e = ground arith

in_range_accepted :
    (low high v : ℕ) → low ≤ v → v ≤ high → in_range low high (pos 0, some v) ≡ (pos 0, some v)
unfolding in_range
in_range_accepted low high v lo hi = ground arith

parsed_accepts : (v : ℕ) (r : ℕ × List ℕ) → parsed r ≡ (pos 0, some v) → r ≡ (v, [])
unfolding parsed
parsed_accepts v (w, []) e = ground arith
parsed_accepts v (w, c ∷ rest) e = ground arith

strstoul_accepts :
    (strtoul : List ℕ → ℕ × List ℕ) (src : List ℕ) (v : ℕ)
    → strstoul strtoul src ≡ (pos 0, some v)
    → (src ≢ []) × (strtoul src ≡ (v, []))
unfolding strstoul
strstoul_accepts strtoul [] v e = ground arith
strstoul_accepts strtoul (c ∷ src) v e = (λ h. cc, parsed_accepts v (strtoul (c ∷ src)) e)

strstoul_accepted :
    (strtoul : List ℕ → ℕ × List ℕ) (src : List ℕ) (v : ℕ)
    → src ≢ []
    → strtoul src ≡ (v, [])
    → strstoul strtoul src ≡ (pos 0, some v)
unfolding strstoul parsed
strstoul_accepted strtoul [] v h e = absurd (h refl)
strstoul_accepted strtoul (c ∷ src) v h e = rw e refl

-- A number in the range, with nothing behind it, is what `strtoul` reads from a string that is not empty.
abbrev pub IsNumber : (List ℕ → ℕ × List ℕ) → List ℕ → ℕ → ℕ → ℕ → Type 0
IsNumber strtoul src low high v = (src ≢ []) × (strtoul src ≡ (v, [])) × (low ≤ v) × (v ≤ high)

-- Whatever the C library reads, `strstoul_range` returns 0 with the number `v` stored exactly where the string is
-- not empty, `v` is read from all of it, and `v` is in the range, ends included.
pub strstoul_range-IsNumber :
    (strtoul : List ℕ → ℕ × List ℕ) (src : List ℕ) (low high v : ℕ)
    → (strstoul_range strtoul src low high ≡ (pos 0, some v)) ↔ IsNumber strtoul src low high v
unfolding strstoul_range
strstoul_range-IsNumber strtoul src low high v = (
  λ e.
      let (read, lo, hi) = in_range_accepts low high v (strstoul strtoul src) e in
      let (some_char, all) = strstoul_accepts strtoul src v read in (some_char, all, lo, hi),
  λ h. rw (strstoul_accepted strtoul src v h.0 h.1) (in_range_accepted low high v h.2 h.3),
)
