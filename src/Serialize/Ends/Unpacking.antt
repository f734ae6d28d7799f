-- ===== src/Serialize/Ends/Unpacking.antt =====
-- The loop of `unpackf` of src/common/serialize.c ends on every format string and argument list.
use amdgpu_fand.Base.{
  ℕ, zero, suc, ◌+◌, ◌*◌, ◌%◌, ◌^◌, ◌≤◌, ◌≡◌, arith, List, [], ◌∷◌, ◌++◌, ◌==◌, ltb, length,
  length-drop, drop, take, ◌≢◌, ℤ, pos, negsuc, Bool-cases, inl, inr,
}
use amdgpu_fand.Serialize.Outcome.{ret, out_of_fuel, >>=_ends}
use amdgpu_fand.Serialize.Dfa.{dfa_simulate, dfa_fmtlen, dfa_valsize}
use amdgpu_fand.Serialize.Unpack.{
  Dest, Unpacked, count_dest, take_repeat, pointer_dest, unpack_bytes, unpack_typed, unpack_round,
  unpackf_loop, unpackf,
}

-- A continuation that ends on the formats of at most `n` characters.
abbrev Ends : ℕ → (List ℕ → List Dest → ℕ → List (List ℕ) → Unpacked) → Type 0
Ends n later =
    (fmt : List ℕ) (args : List Dest) (nread : ℕ) (out : List (List ℕ))
    → length fmt ≤ n
    → later fmt args nread out ≢ out_of_fuel

module _ (n : ℕ) (later : List ℕ → List Dest → ℕ → List (List ℕ) → Unpacked) (ends : Ends n later)
    (buffer : List ℕ) (bufsize nread : ℕ) (out : List (List ℕ)) where
  unpack_bytes_ends :
      (nbytes : ℕ) (fmt : List ℕ) (args : List Dest) (space : ℕ)
      → length fmt ≤ n
      → unpack_bytes later nbytes fmt args buffer bufsize nread out space ≢ out_of_fuel
  unfolding unpack_bytes
  unpack_bytes_ends nbytes fmt args space h =
      ground (arith, ends fmt args (nread + nbytes) (out ++ (take nbytes (drop nread buffer) ∷ [])))

  pointer_dest_ends : (args : List Dest) → pointer_dest args ≢ out_of_fuel
  unfolding pointer_dest
  pointer_dest_ends [] = λ e. cc
  pointer_dest_ends (Dest.count k ∷ args) = λ e. cc
  pointer_dest_ends (Dest.room k ∷ args) = λ e. cc

  unpack_typed_ends :
      (t : ℤ) (nrepeat : ℕ) (fmt : List ℕ) (args : List Dest)
      → length fmt ≤ n
      → unpack_typed later t nrepeat fmt args buffer bufsize nread out ≢ out_of_fuel
  unfolding unpack_typed
  unpack_typed_ends (negsuc k) nrepeat fmt args h = λ e. cc
  unpack_typed_ends (pos k) nrepeat fmt args h = elim (Bool-cases (ltb 9 k)) [
    | inl e ↦ rw e (λ p. cc)
    | inr e ↦ rw e (
        >>=_ends (pointer_dest args) _ (pointer_dest_ends args) (λ r p.
          unpack_bytes_ends (nrepeat * dfa_valsize k % 2 ^ 32) (drop (dfa_fmtlen k) fmt) r.1 r.0
            (omega (arith, length-drop (dfa_fmtlen k) fmt))))
  ]

  unpack_round_ends :
      (r : ℕ × List ℕ × List Dest)
      → length r.1 ≤ n
      → unpack_round later buffer bufsize nread out r ≢ out_of_fuel
  unfolding unpack_round
  unpack_round_ends (nrepeat, fmt, args) h = elim (Bool-cases (nrepeat == 0)) [
    | inl e ↦ rw e (λ p. cc)
    | inr e ↦ rw e (unpack_typed_ends (dfa_simulate fmt) nrepeat fmt args h)
  ]

take_repeat_ends : (fmt : List ℕ) (args : List Dest) → take_repeat fmt args ≢ out_of_fuel
unfolding take_repeat count_dest
take_repeat_ends [] args = λ e. cc
take_repeat_ends (c ∷ fmt) [] = ground arith
take_repeat_ends (c ∷ fmt) (Dest.count n ∷ args) = ground arith
take_repeat_ends (c ∷ fmt) (Dest.room n ∷ args) = ground arith

take_repeat_shrinks :
    (fmt : List ℕ) (args : List Dest) (r : ℕ × List ℕ × List Dest)
    → take_repeat fmt args ≡ ret r
    → length r.1 ≤ length fmt
unfolding take_repeat count_dest
take_repeat_shrinks [] args r e = ground arith
take_repeat_shrinks (c ∷ fmt) [] r e = ground arith
take_repeat_shrinks (c ∷ fmt) (Dest.count n ∷ args) r e = ground arith
take_repeat_shrinks (c ∷ fmt) (Dest.room n ∷ args) r e = ground arith

unpackf_loop_ends :
    (fuel : ℕ) (buffer : List ℕ) (bufsize : ℕ) (fmt : List ℕ) (args : List Dest) (nread : ℕ)
    (out : List (List ℕ))
    → length fmt ≤ fuel
    → unpackf_loop fuel buffer bufsize fmt args nread out ≢ out_of_fuel
unfolding unpackf_loop
unpackf_loop_ends fuel buffer bufsize [] args nread out h = λ e. cc
unpackf_loop_ends zero buffer bufsize (c ∷ fmt) args nread out h = absurd (omega arith)
unpackf_loop_ends (suc fuel) buffer bufsize (c ∷ fmt) args nread out h =
    elim (Bool-cases (c == b'%')) [
      | inl e ↦
          rw (e, unpackf_loop)
            (>>=_ends (take_repeat fmt args) _ (take_repeat_ends fmt args) (λ r p.
              unpack_round_ends fuel (unpackf_loop fuel buffer bufsize)
                (unpackf_loop_ends fuel buffer bufsize) buffer bufsize nread out r
                (omega (arith, take_repeat_shrinks fmt args r p))))
      | inr e ↦ rw (e, unpackf_loop) (λ p. cc)
    ]

-- `unpackf` ends on every format string and argument list: its loop never runs out of fuel.
unpackf-ne-out_of_fuel :
    (buffer : List ℕ) (bufsize : ℕ) (fmt : List ℕ) (args : List Dest)
    → unpackf buffer bufsize fmt args ≢ out_of_fuel
unfolding unpackf
unpackf-ne-out_of_fuel buffer bufsize fmt args =
    unpackf_loop_ends (length fmt) buffer bufsize fmt args 0 [] (omega arith)
