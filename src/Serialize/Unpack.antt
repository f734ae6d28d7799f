-- ===== src/Serialize/Unpack.antt =====
-- `unpackf` of src/common/serialize.c.
use amdgpu_fand.Base.{
  ℕ, zero, suc, ◌+◌, ◌*◌, ◌%◌, ◌^◌, List, [], ◌∷◌, ◌++◌, true, false, ◌||◌, ◌==◌, ltb,
  if◌then◌else◌, length, take, drop, ℤ, pos, negsuc, neg, e2big,
}
use amdgpu_fand.Serialize.Dfa.{dfa_simulate, dfa_valsize, dfa_fmtlen}
use amdgpu_fand.Serialize.Outcome.{Outcome, ret, undefined, out_of_fuel, ◌>>=◌}

-- A variable argument: a count for `*`, or a pointer with the number of bytes that fit behind it.
pub data Dest : Type 0 where
  count : ℕ → Dest
  room : ℕ → Dest

unfoldable pub count_dest : List Dest → Outcome (ℕ × List Dest)
count_dest [] = undefined
count_dest (count n ∷ later) = ret (n % 2 ^ 32, later)
count_dest (room n ∷ later) = undefined

unfoldable pub take_repeat : List ℕ → List Dest → Outcome (ℕ × List ℕ × List Dest)
take_repeat [] args = ret (1, [], args)
take_repeat (c ∷ fmt) args = elim (c == b'*') [
  | true ↦ count_dest args >>= λ r. ret (r.0, fmt, r.1)
  | false ↦ ret (1, c ∷ fmt, args)
]

-- `valist_strip_pointer`.
unfoldable pub pointer_dest : List Dest → Outcome (ℕ × List Dest)
pointer_dest [] = undefined
pointer_dest (count n ∷ later) = undefined
pointer_dest (room n ∷ later) = ret (n, later)

-- What a call returns: its result, and the bytes stored behind each pointer, in order.
abbrev pub Unpacked : Type 0
Unpacked = Outcome (ℤ × List (List ℕ))

-- The size check and the memcpy. Reading past the buffer or writing past the object is undefined.
unfoldable pub unpack_bytes :
    (List ℕ → List Dest → ℕ → List (List ℕ) → Unpacked)
    → ℕ
    → List ℕ
    → List Dest
    → List ℕ
    → ℕ
    → ℕ
    → List (List ℕ)
    → ℕ
    → Unpacked
unpack_bytes later nbytes fmt args buffer bufsize nread out space =
    if ltb bufsize (nread + nbytes)
    then ret (neg e2big, out)
    else if ltb space nbytes || ltb (length buffer) (nread + nbytes)
    then undefined
    else later fmt args (nread + nbytes) (out ++ (take nbytes (drop nread buffer) ∷ []))

unfoldable pub unpack_typed :
    (List ℕ → List Dest → ℕ → List (List ℕ) → Unpacked)
    → ℤ
    → ℕ
    → List ℕ
    → List Dest
    → List ℕ
    → ℕ
    → ℕ
    → List (List ℕ)
    → Unpacked
unpack_typed later (negsuc n) nrepeat fmt args buffer bufsize nread out = ret (negsuc 0, out)
unpack_typed later (pos fmttype) nrepeat fmt args buffer bufsize nread out =
    if ltb 9 fmttype
    then ret (negsuc 0, out)
    else (pointer_dest args >>= λ r.
        unpack_bytes later (nrepeat * dfa_valsize fmttype % 2 ^ 32) (drop (dfa_fmtlen fmttype) fmt)
          r.1 buffer bufsize nread out r.0)

unfoldable pub unpack_round :
    (List ℕ → List Dest → ℕ → List (List ℕ) → Unpacked)
    → List ℕ
    → ℕ
    → ℕ
    → List (List ℕ)
    → ℕ × List ℕ × List Dest
    → Unpacked
unpack_round later buffer bufsize nread out (nrepeat, fmt, args) =
    if nrepeat == 0
    then ret (negsuc 0, out)
    else unpack_typed later (dfa_simulate fmt) nrepeat fmt args buffer bufsize nread out

unfoldable pub unpackf_loop : ℕ → List ℕ → ℕ → List ℕ → List Dest → ℕ → List (List ℕ) → Unpacked
unpackf_loop fuel buffer bufsize [] args nread out = ret (pos nread, out)
unpackf_loop zero buffer bufsize (c ∷ fmt) args nread out = out_of_fuel
unpackf_loop (suc fuel) buffer bufsize (c ∷ fmt) args nread out = elim (c == b'%') [
  | true ↦
      take_repeat fmt args
      >>= unpack_round (unpackf_loop fuel buffer bufsize) buffer bufsize nread out
  | false ↦ ret (negsuc 0, out)
]

unfoldable pub unpackf : List ℕ → ℕ → List ℕ → List Dest → Unpacked
unpackf buffer bufsize fmt args = unpackf_loop (length fmt) buffer bufsize fmt args 0 []
