-- ===== src/Strutils/Room.antt =====
-- The destinations of `strscpy` and `strsncpy` of src/common/strutils.c, whatever the source.
use amdgpu_fand.Base.{
  ℕ, zero, suc, ◌+◌, ◌-◌, ◌<◌, ◌≡◌, refl, ◌∙◌, arith, List, [], ◌∷◌, false, ◌==◌, ltb, leb,
  if◌then◌else◌, length, length-set, set, min, ℤ, pos_part, Bool-cases, inl, inr,
}
use amdgpu_fand.Serialize.Outcome.{Ensures}
use amdgpu_fand.Strutils.{copy, terminate, strscpy, terminate_n, strsncpy}

-- A result below the size, and a destination of that size.
abbrev pub IsCopied : ℕ → ℤ × List ℕ → Type 0
IsCopied size (n, dst) = (pos_part n < size) × (length dst ≡ size)

length-copy : (i : ℕ) (src : List ℕ) (d : ℕ) (dst : List ℕ) → length (copy i src d dst) ≡ length dst
unfolding copy
length-copy zero src d dst = refl
length-copy (suc i) [] d dst = length-set dst d 0
length-copy (suc i) (c ∷ src) d dst = length-copy i src (suc d) (set dst d c) ∙ length-set dst d c

terminate-IsCopied :
    (srclen size : ℕ) (dst : List ℕ)
    → 0 < size
    → length dst ≡ size
    → IsCopied size (terminate srclen size dst)
unfolding terminate
terminate-IsCopied srclen size dst some_room e = elim (Bool-cases (leb size srclen)) [
  | inl large ↦ rw large (some_room, length-set dst (size - 1) 0 ∙ e)
  | inr fits ↦ rw fits (ground arith, e)
]

terminate_n-IsCopied :
    (srclen size n : ℕ) (dst : List ℕ)
    → 0 < size
    → length dst ≡ size
    → IsCopied size (terminate_n srclen size n dst)
unfolding terminate_n
terminate_n-IsCopied srclen size n dst some_room e = elim (Bool-cases (leb size n)) [
  | inl large ↦ rw large (some_room, length-set dst (size - 1) 0 ∙ e)
  | inr fits ↦ elim (Bool-cases (ltb srclen n)) [
    | inl short ↦ rw (fits, short) (some_room, e)
    | inr long ↦ rw (fits, long) (ground arith, length-set dst n 0 ∙ e)
  ]
]

-- Into a destination that has as many bytes as it is said to have, and one at least, every string is copied without
-- an access outside of it, and the destination keeps its size.
pub strscpy-IsCopied :
    (dst src : List ℕ) (size : ℕ)
    → 0 < size
    → length dst ≡ size
    → Ensures (IsCopied size) (strscpy dst src size)
unfolding strscpy
strscpy-IsCopied dst src size some_room e =
    let nonzero : (size == 0) ≡ false = ground arith in
    let inside : ltb (length dst) (min size (length src + 1)) ≡ false = ground arith in
    rw (nonzero, inside)
      (terminate-IsCopied (length src) size (copy size src 0 dst) some_room
        (length-copy size src 0 dst ∙ e))

pub strsncpy-IsCopied :
    (dst src : List ℕ) (size n : ℕ)
    → 0 < size
    → length dst ≡ size
    → Ensures (IsCopied size) (strsncpy dst src size n)
unfolding strsncpy
strsncpy-IsCopied dst src size n some_room e =
    let nonzero : (size == 0) ≡ false = ground arith in
    let inside : ltb (length dst) (if leb size n then size else min n (length src) + 1) ≡ false =
      ground arith in
    rw (nonzero, inside)
      (terminate_n-IsCopied (length src) size n (copy (min size n) src 0 dst) some_room
        (length-copy (min size n) src 0 dst ∙ e))
