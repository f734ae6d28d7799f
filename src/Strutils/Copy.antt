-- ===== src/Strutils/Copy.antt =====
-- `strscpy` and `strsncpy` of src/common/strutils.c: what is in the destination afterwards.
use amdgpu_fand.Base.{
  ℕ, zero, suc, ◌+◌, ◌-◌, ◌≤◌, ◌<◌, ◌≡◌, refl, ap, ◌∙◌, arith, List, [], ◌∷◌, ◌++◌, true, false,
  ◌==◌, ltb, leb, if◌then◌else◌, length, set, take, drop, min, ℤ, pos, neg, e2big, le→ltb,
  Bool-cases, inl, inr,
}
use amdgpu_fand.Serialize.Outcome.{ret}
use amdgpu_fand.Strutils.{copy, terminate, strscpy, terminate_n, strsncpy}

-- The bytes before index `d` stay in front.
copy_cons :
    (i : ℕ) (src : List ℕ) (d b : ℕ) (dst : List ℕ)
    → copy i src (suc d) (b ∷ dst) ≡ b ∷ copy i src d dst
unfolding copy
copy_cons zero src d b dst = refl
copy_cons (suc i) [] d b dst = refl
copy_cons (suc i) (c ∷ src) d b dst = copy_cons i src (suc d) b (set dst d c)

-- A string that fits is copied with its NUL.
copy_fits :
    (i : ℕ) (src dst : List ℕ)
    → length src < i
    → length src < length dst
    → copy i src 0 dst ≡ src ++ (0 ∷ drop (suc (length src)) dst)
unfolding copy
copy_fits zero src dst h room = absurd (omega arith)
copy_fits (suc i) src [] h room = absurd (omega arith)
copy_fits (suc i) [] (b ∷ dst) h room = refl
copy_fits (suc i) (c ∷ src) (b ∷ dst) h room =
    copy_cons i src 0 c dst ∙ ap (λ t. c ∷ t) (copy_fits i src dst (omega arith) (omega arith))

-- A longer one is cut.
copy_cut :
    (i : ℕ) (src dst : List ℕ)
    → i ≤ length src
    → i ≤ length dst
    → copy i src 0 dst ≡ take i src ++ drop i dst
unfolding copy
copy_cut zero src dst h room = refl
copy_cut (suc i) [] dst h room = absurd (omega arith)
copy_cut (suc i) (c ∷ src) [] h room = absurd (omega arith)
copy_cut (suc i) (c ∷ src) (b ∷ dst) h room =
    copy_cons i src 0 c dst ∙ ap (λ t. c ∷ t) (copy_cut i src dst (omega arith) (omega arith))

-- The last byte copied becomes a NUL.
set_cut :
    (i : ℕ) (src dst : List ℕ)
    → i < length src
    → set (take (suc i) src ++ dst) i 0 ≡ take i src ++ (0 ∷ dst)
set_cut zero [] dst h = absurd (omega arith)
set_cut zero (c ∷ src) dst h = refl
set_cut (suc i) [] dst h = absurd (omega arith)
set_cut (suc i) (c ∷ src) dst h = ap (λ t. c ∷ t) (set_cut i src dst (omega arith))

set-drop :
    (i : ℕ) (dst : List ℕ) (src : List ℕ)
    → i ≤ length src
    → i < length dst
    → set (take i src ++ drop i dst) i 0 ≡ take i src ++ (0 ∷ drop (suc i) dst)
set-drop zero [] src h room = absurd (omega arith)
set-drop zero (b ∷ dst) src h room = refl
set-drop (suc i) [] src h room = absurd (omega arith)
set-drop (suc i) (b ∷ dst) [] h room = absurd (omega arith)
set-drop (suc i) (b ∷ dst) (c ∷ src) h room =
    ap (λ t. c ∷ t) (set-drop i dst src (omega arith) (omega arith))

end_fits :
    (n : ℕ) (src dst : List ℕ)
    → n < length dst
    → leb (length src) n ≡ true
    → terminate (length src) (suc n) (copy (suc n) src 0 dst)
      ≡ (pos (length src), src ++ (0 ∷ drop (suc (length src)) dst))
unfolding terminate
end_fits n src dst room e =
    let large : leb (suc n) (length src) ≡ false = ground arith in
    rw (large, copy_fits (suc n) src dst (ground arith) (ground arith)) refl

end_cut :
    (n : ℕ) (src dst : List ℕ)
    → n < length dst
    → leb (length src) n ≡ false
    → terminate (length src) (suc n) (copy (suc n) src 0 dst)
      ≡ (neg e2big, take n src ++ (0 ∷ drop (suc n) dst))
unfolding terminate
end_cut n src dst room e =
    let large : leb (suc n) (length src) ≡ true = ground arith in
    let less : n < length src = ground arith in
    let same : suc n - 1 ≡ n = omega arith in
    rw
      (
        large,
        same,
        copy_cut (suc n) src dst (omega arith) (omega arith),
        set_cut n src (drop (suc n) dst) less,
      )
      refl

-- What `strscpy` is to return and leave, for a size of n + 1.
abbrev pub copied : List ℕ → List ℕ → ℕ → ℤ × List ℕ
copied dst src n =
    if leb (length src) n
    then (pos (length src), src ++ (0 ∷ drop (suc (length src)) dst))
    else (neg e2big, take n src ++ (0 ∷ drop (suc n) dst))

-- Into a destination that has the n + 1 bytes that it is said to have, a string of at most n characters is
-- copied with its NUL and its length is returned; of a longer one the first n characters are copied, a NUL
-- is put behind them and -E2BIG is returned. No other byte changes.
pub strscpy-copied :
    (dst src : List ℕ) (n : ℕ) → n < length dst → strscpy dst src (suc n) ≡ ret (copied dst src n)
unfolding strscpy
strscpy-copied dst src n room =
    let inside : ltb (length dst) (min (suc n) (length src + 1)) ≡ false =
      le→ltb _ _ (omega arith) in
    let nonzero : (suc n == 0) ≡ false = ground arith in
    elim (Bool-cases (leb (length src) n)) [
      | inl e ↦ rw (nonzero, inside, e, end_fits n src dst room e) refl
      | inr e ↦ rw (nonzero, inside, e, end_cut n src dst room e) refl
    ]

-- What `strsncpy` is to return and leave where n is below the size.
abbrev pub copied_n : List ℕ → List ℕ → ℕ → ℤ × List ℕ
copied_n dst src n =
    if ltb (length src) n
    then (neg e2big, src ++ (0 ∷ drop (suc (length src)) dst))
    else (pos n, take n src ++ (0 ∷ drop (suc n) dst))

end_n :
    (size n : ℕ) (src dst : List ℕ)
    → n < size
    → n < length dst
    → terminate_n (length src) size n (copy n src 0 dst) ≡ copied_n dst src n
unfolding terminate_n
end_n size n src dst small room =
    let below : leb size n ≡ false = ground arith in
    elim (Bool-cases (ltb (length src) n)) [
      | inl e ↦ rw (below, e, copy_fits n src dst (ground arith) (ground arith)) refl
      | inr e ↦
          rw
            (
              below,
              e,
              copy_cut n src dst (ground arith) (ground arith),
              set-drop n dst src (ground arith) room,
            )
            refl
    ]

-- With n below the size, and a destination of that size, `strsncpy` copies the first n characters, puts a NUL behind
-- them and returns n; a string that is shorter than n is copied whole and -E2BIG is returned. No other
-- byte changes.
pub strsncpy-copied_n :
    (dst src : List ℕ) (size n : ℕ)
    → n < size
    → size ≤ length dst
    → strsncpy dst src size n ≡ ret (copied_n dst src n)
unfolding strsncpy
strsncpy-copied_n dst src size n small room =
    let below : leb size n ≡ false = ground arith in
    let inside : ltb (length dst) (min n (length src) + 1) ≡ false = le→ltb _ _ (omega arith) in
    let nonzero : (size == 0) ≡ false = ground arith in
    let least : min size n ≡ n = omega arith in
    rw (nonzero, below, inside, least, end_n size n src dst small (omega arith)) refl
