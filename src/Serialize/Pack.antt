-- ===== src/Serialize/Pack.antt =====
-- `packf` of src/common/serialize.c, on the little-endian machine with 4-byte `int` and 8-byte `long` that
-- the daemon runs on.
use amdgpu_fand.Base.{
  ℕ, zero, suc, ◌+◌, ◌*◌, ◌%◌, ◌^◌, List, [], ◌∷◌, true, false, ◌||◌, ◌==◌, ltb, if◌then◌else◌,
  length, take, drop, ℤ, pos, negsuc, neg, e2big,
}
use amdgpu_fand.Serialize.Dfa.{dfa_simulate, dfa_valsize, dfa_fmtlen}
use amdgpu_fand.Serialize.Bytes.{le_bytes, write_at}
use amdgpu_fand.Serialize.Outcome.{Outcome, ret, undefined, out_of_fuel, ◌>>=◌}

-- A variable argument: the bit pattern of an integer, or a pointer with the bytes that it points to.
pub data Arg : Type 0 where
  val : ℕ → Arg
  ptr : List ℕ → Arg

-- The unsigned that `*` reads.
unfoldable pub count_arg : List Arg → Outcome (ℕ × List Arg)
count_arg [] = undefined
count_arg (val n ∷ later) = ret (n % 2 ^ 32, later)
count_arg (ptr bytes ∷ later) = undefined

-- The count behind a `%`, 1 where there is none, the format behind it and the arguments left.
unfoldable pub take_repeat : List ℕ → List Arg → Outcome (ℕ × List ℕ × List Arg)
take_repeat [] args = ret (1, [], args)
take_repeat (c ∷ fmt) args = elim (c == b'*') [
  | true ↦ count_arg args >>= λ r. ret (r.0, fmt, r.1)
  | false ↦ ret (1, c ∷ fmt, args)
]

-- `valist_strip_integral`, of which the eight bytes of the union are kept, and `valist_strip_pointer`.
unfoldable pub integral_arg : List Arg → Outcome (List ℕ × List Arg)
integral_arg [] = undefined
integral_arg (val v ∷ later) = ret (le_bytes 8 v, later)
integral_arg (ptr bytes ∷ later) = undefined

unfoldable pub pointer_arg : List Arg → Outcome (List ℕ × List Arg)
pointer_arg [] = undefined
pointer_arg (val v ∷ later) = undefined
pointer_arg (ptr bytes ∷ later) = ret (bytes, later)

unfoldable pub source_arg : ℕ → List Arg → Outcome (List ℕ × List Arg)
source_arg nrepeat args = if nrepeat == 1 then integral_arg args else pointer_arg args

-- What a call returns: its result, and the buffer as it leaves it.
abbrev pub Packed : Type 0
Packed = Outcome (ℤ × List ℕ)

-- The size check and the memcpy. Reading past the source or writing past the buffer is undefined.
unfoldable pub pack_bytes :
    (List ℕ → List Arg → ℕ → List ℕ → Packed)
    → ℕ
    → List ℕ
    → List Arg
    → ℕ
    → ℕ
    → List ℕ
    → List ℕ
    → Packed
pack_bytes later nbytes fmt args bufsize nwritten buffer src =
    if ltb bufsize (nwritten + nbytes)
    then ret (neg e2big, buffer)
    else if ltb (length src) nbytes || ltb (length buffer) (nwritten + nbytes)
    then undefined
    else later fmt args (nwritten + nbytes) (write_at buffer nwritten (take nbytes src))

-- The round behind the count; `later` is the rest of the loop.
unfoldable pub pack_typed :
    (List ℕ → List Arg → ℕ → List ℕ → Packed) → ℤ → ℕ → List ℕ → List Arg → ℕ → ℕ → List ℕ → Packed
pack_typed later (negsuc n) nrepeat fmt args bufsize nwritten buffer = ret (negsuc 0, buffer)
pack_typed later (pos fmttype) nrepeat fmt args bufsize nwritten buffer =
    if ltb 9 fmttype
    then ret (negsuc 0, buffer)
    else (source_arg nrepeat args >>= λ r.
        pack_bytes later (nrepeat * dfa_valsize fmttype % 2 ^ 32) (drop (dfa_fmtlen fmttype) fmt)
          r.1 bufsize nwritten buffer r.0)

unfoldable pub pack_round :
    (List ℕ → List Arg → ℕ → List ℕ → Packed) → ℕ → ℕ → List ℕ → ℕ × List ℕ × List Arg → Packed
pack_round later bufsize nwritten buffer (nrepeat, fmt, args) =
    if nrepeat == 0
    then ret (negsuc 0, buffer)
    else pack_typed later (dfa_simulate fmt) nrepeat fmt args bufsize nwritten buffer

-- Each round of the loop takes two characters at least.
unfoldable pub packf_loop : ℕ → ℕ → List ℕ → List Arg → ℕ → List ℕ → Packed
packf_loop fuel bufsize [] args nwritten buffer = ret (pos nwritten, buffer)
packf_loop zero bufsize (c ∷ fmt) args nwritten buffer = out_of_fuel
packf_loop (suc fuel) bufsize (c ∷ fmt) args nwritten buffer = elim (c == b'%') [
  | true ↦ take_repeat fmt args >>= pack_round (packf_loop fuel bufsize) bufsize nwritten buffer
  | false ↦ ret (negsuc 0, buffer)
]

unfoldable pub packf : List ℕ → ℕ → List ℕ → List Arg → Packed
packf buffer bufsize fmt args = packf_loop (length fmt) bufsize fmt args 0 buffer
