-- ===== src/Serialize/Ends.antt =====
-- The loop of `packf` of src/common/serialize.c ends on every format string and argument list; Unpacking is about
-- the loop of `unpackf`.
pub mod Unpacking
use amdgpu_fand.Base.{
  ℕ, zero, suc, ◌+◌, ◌*◌, ◌%◌, ◌^◌, ◌≤◌, ◌≡◌, arith, List, [], ◌∷◌, ◌==◌, ltb, length, length-drop,
  drop, take, ◌≢◌, ℤ, pos, negsuc, Bool-cases, inl, inr,
}
use amdgpu_fand.Serialize.Outcome.{ret, out_of_fuel, >>=_ends}
use amdgpu_fand.Serialize.Dfa.{dfa_simulate, dfa_fmtlen, dfa_valsize}
use amdgpu_fand.Serialize.Bytes.{write_at}
use amdgpu_fand.Serialize.Pack.{
  Arg, Packed, count_arg, take_repeat, integral_arg, pointer_arg, source_arg, pack_bytes,
  pack_typed, pack_round, packf_loop, packf,
}

-- A continuation that ends on the formats of at most `n` characters.
abbrev Ends : ℕ → (List ℕ → List Arg → ℕ → List ℕ → Packed) → Type 0
Ends n later =
    (fmt : List ℕ) (args : List Arg) (nwritten : ℕ) (buffer : List ℕ)
    → length fmt ≤ n
    → later fmt args nwritten buffer ≢ out_of_fuel

module _ (n : ℕ) (later : List ℕ → List Arg → ℕ → List ℕ → Packed) (ends : Ends n later) where
  pack_bytes_ends :
      (nbytes : ℕ) (fmt : List ℕ) (args : List Arg) (bufsize nwritten : ℕ) (buffer src : List ℕ)
      → length fmt ≤ n
      → pack_bytes later nbytes fmt args bufsize nwritten buffer src ≢ out_of_fuel
  unfolding pack_bytes
  pack_bytes_ends nbytes fmt args bufsize nwritten buffer src h =
      ground (arith, ends fmt args (nwritten + nbytes) (write_at buffer nwritten (take nbytes src)))

  source_arg_ends : (nrepeat : ℕ) (args : List Arg) → source_arg nrepeat args ≢ out_of_fuel
  unfolding source_arg integral_arg pointer_arg
  source_arg_ends nrepeat [] = ground arith
  source_arg_ends nrepeat (Arg.val v ∷ args) = ground arith
  source_arg_ends nrepeat (Arg.ptr v ∷ args) = ground arith

  pack_typed_ends :
      (t : ℤ) (nrepeat : ℕ) (fmt : List ℕ) (args : List Arg) (bufsize nwritten : ℕ)
      (buffer : List ℕ)
      → length fmt ≤ n
      → pack_typed later t nrepeat fmt args bufsize nwritten buffer ≢ out_of_fuel
  unfolding pack_typed
  pack_typed_ends (negsuc k) nrepeat fmt args bufsize nwritten buffer h = λ e. cc
  pack_typed_ends (pos k) nrepeat fmt args bufsize nwritten buffer h = elim (Bool-cases (ltb 9 k)) [
    | inl e ↦ rw e (λ p. cc)
    | inr e ↦ rw e (
        >>=_ends (source_arg nrepeat args) _ (source_arg_ends nrepeat args) (λ r p.
          pack_bytes_ends (nrepeat * dfa_valsize k % 2 ^ 32) (drop (dfa_fmtlen k) fmt) r.1 bufsize
            nwritten buffer r.0 (omega (arith, length-drop (dfa_fmtlen k) fmt))))
  ]

  pack_round_ends :
      (bufsize nwritten : ℕ) (buffer : List ℕ) (r : ℕ × List ℕ × List Arg)
      → length r.1 ≤ n
      → pack_round later bufsize nwritten buffer r ≢ out_of_fuel
  unfolding pack_round
  pack_round_ends bufsize nwritten buffer (nrepeat, fmt, args) h =
      elim (Bool-cases (nrepeat == 0)) [
        | inl e ↦ rw e (λ p. cc)
        | inr e ↦
            rw e (pack_typed_ends (dfa_simulate fmt) nrepeat fmt args bufsize nwritten buffer h)
      ]

take_repeat_ends : (fmt : List ℕ) (args : List Arg) → take_repeat fmt args ≢ out_of_fuel
unfolding take_repeat count_arg
take_repeat_ends [] args = λ e. cc
take_repeat_ends (c ∷ fmt) [] = ground arith
take_repeat_ends (c ∷ fmt) (Arg.val n ∷ args) = ground arith
take_repeat_ends (c ∷ fmt) (Arg.ptr n ∷ args) = ground arith

take_repeat_shrinks :
    (fmt : List ℕ) (args : List Arg) (r : ℕ × List ℕ × List Arg)
    → take_repeat fmt args ≡ ret r
    → length r.1 ≤ length fmt
unfolding take_repeat count_arg
take_repeat_shrinks [] args r e = ground arith
take_repeat_shrinks (c ∷ fmt) [] r e = ground arith
take_repeat_shrinks (c ∷ fmt) (Arg.val n ∷ args) r e = ground arith
take_repeat_shrinks (c ∷ fmt) (Arg.ptr n ∷ args) r e = ground arith

packf_loop_ends :
    (fuel bufsize : ℕ) (fmt : List ℕ) (args : List Arg) (nwritten : ℕ) (buffer : List ℕ)
    → length fmt ≤ fuel
    → packf_loop fuel bufsize fmt args nwritten buffer ≢ out_of_fuel
unfolding packf_loop
packf_loop_ends fuel bufsize [] args nwritten buffer h = λ e. cc
packf_loop_ends zero bufsize (c ∷ fmt) args nwritten buffer h = absurd (omega arith)
packf_loop_ends (suc fuel) bufsize (c ∷ fmt) args nwritten buffer h =
    elim (Bool-cases (c == b'%')) [
      | inl e ↦
          rw (e, packf_loop)
            (>>=_ends (take_repeat fmt args) _ (take_repeat_ends fmt args) (λ r p.
              pack_round_ends fuel (packf_loop fuel bufsize) (packf_loop_ends fuel bufsize) bufsize
                nwritten buffer r (omega (arith, take_repeat_shrinks fmt args r p))))
      | inr e ↦ rw (e, packf_loop) (λ p. cc)
    ]

-- `packf` ends on every format string and argument list: its loop never runs out of fuel.
pub packf-ne-out_of_fuel :
    (buffer : List ℕ) (bufsize : ℕ) (fmt : List ℕ) (args : List Arg)
    → packf buffer bufsize fmt args ≢ out_of_fuel
unfolding packf
packf-ne-out_of_fuel buffer bufsize fmt args =
    packf_loop_ends (length fmt) bufsize fmt args 0 buffer (omega arith)
