-- ===== src/Strutils.antt =====
-- src/common/strutils.c. A string is the list of its characters before the terminating NUL, a destination the
-- list of the bytes of its object. `tolower` and `strtoul` of the C library are arguments.
pub mod Copy
pub mod Range
pub mod Room
mod Tests
use mathlib.Core.List.{map}
use amdgpu_fand.Base.{
  ℕ, zero, suc, ◌+◌, ◌-◌, List, [], ◌∷◌, Bool, true, false, ◌||◌, ◌==◌, ltb, leb, if◌then◌else◌,
  length, set, min, Option, none, some, ℤ, pos, neg, e2big, einval,
}
use amdgpu_fand.Serialize.Outcome.{Outcome, ret, undefined}

-- The loop of `strscpy`: `i` bytes left, `d` the index of the next one.
unfoldable pub copy : ℕ → List ℕ → ℕ → List ℕ → List ℕ
copy zero src d dst = dst
copy (suc i) [] d dst = set dst d 0
copy (suc i) (c ∷ src) d dst = copy i src (suc d) (set dst d c)

-- The end of `strscpy`.
unfoldable pub terminate : ℕ → ℕ → List ℕ → ℤ × List ℕ
terminate srclen dstlen dst =
    if leb dstlen srclen then (neg e2big, set dst (dstlen - 1) 0) else (pos srclen, dst)

-- A write outside of the object is undefined; for `dstlen` 0 that is the one to `dst[dstlen - 1]`.
unfoldable pub strscpy : List ℕ → List ℕ → ℕ → Outcome (ℤ × List ℕ)
strscpy dst src dstlen =
    if dstlen == 0 || ltb (length dst) (min dstlen (length src + 1))
    then undefined
    else ret (terminate (length src) dstlen (copy dstlen src 0 dst))

-- The end of `strsncpy`.
unfoldable pub terminate_n : ℕ → ℕ → ℕ → List ℕ → ℤ × List ℕ
terminate_n srclen dstlen n dst =
    if leb dstlen n
    then (neg e2big, set dst (dstlen - 1) 0)
    else if ltb srclen n
    then (neg e2big, dst)
    else (pos n, set dst n 0)

-- The loop ends at the smaller of the two counts.
unfoldable pub strsncpy : List ℕ → List ℕ → ℕ → ℕ → Outcome (ℤ × List ℕ)
strsncpy dst src dstlen n =
    if dstlen == 0 || ltb (length dst) (if leb dstlen n then dstlen else min n (length src) + 1)
    then undefined
    else ret (terminate_n (length src) dstlen n (copy (min dstlen n) src 0 dst))

unfoldable pub strtolower : (ℕ → ℕ) → List ℕ → List ℕ
strtolower tolower str = map tolower str

-- Nothing may stand behind the number.
unfoldable pub parsed : ℕ × List ℕ → ℤ × Option ℕ
parsed (v, []) = (pos 0, some v)
parsed (v, c ∷ rest) = (neg einval, some v)

-- The result, and the number stored; `strtoul` gives the number and the characters behind it.
unfoldable pub strstoul : (List ℕ → ℕ × List ℕ) → List ℕ → ℤ × Option ℕ
strstoul strtoul [] = (neg einval, none)
strstoul strtoul (c ∷ src) = parsed (strtoul (c ∷ src))

unfoldable pub in_range : ℕ → ℕ → ℤ × Option ℕ → ℤ × Option ℕ
in_range low high (pos zero, some v) =
    (if ltb v low || ltb high v then neg einval else pos 0, some v)
in_range low high r = r

unfoldable pub strstoul_range : (List ℕ → ℕ × List ℕ) → List ℕ → ℕ → ℕ → ℤ × Option ℕ
strstoul_range strtoul src low high = in_range low high (strstoul strtoul src)
