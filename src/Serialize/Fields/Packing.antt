-- ===== src/Serialize/Fields/Packing.antt =====
-- `packf` writes the bytes of its fields, one after the other, or reports that they do not fit.
use amdgpu_fand.Base.{
  ℕ, zero, suc, ◌+◌, ◌*◌, ◌/◌, ◌%◌, ◌^◌, ◌≤◌, ◌<◌, ◌≡◌, refl, ap, ◌∙◌, arith, List, [], ◌∷◌, ◌++◌,
  length, drop, take, All, pos, neg, e2big, ltb, ne→==, le→ltb, lt→ltb, length-append, Bool-cases,
  inl, inr,
}
use amdgpu_fand.Serialize.Outcome.{ret}
use amdgpu_fand.Serialize.Conversion.{Conversion, fmt_code, chars, size, simulate_chars}
use amdgpu_fand.Serialize.Bytes.{
  le_bytes, length-le_bytes, write_at, write_at-nil, write_at-append, length-write_at,
}
use amdgpu_fand.Serialize.Pack.{
  Arg, val, ptr, Packed, take_repeat, count_arg, source_arg, integral_arg, pointer_arg, pack_bytes,
  pack_typed, pack_round, packf_loop, packf,
}
use amdgpu_fand.Serialize.Fields.{
  Field, one, many, IsField, format, pack_args, field_bytes, encode, length-field_bytes_many,
  fmtlen_chars, valsize_code, code_max, size_bounds, NoStar, no_star, chars-NoStar,
}
use native.Mathlib.Nat.{mod-eq_of_lt, add-zero, zero-add, add_assoc}

take-le_bytes : (n m v : ℕ) → n ≤ m → take n (le_bytes m v) ≡ le_bytes n v
unfolding le_bytes
take-le_bytes zero m v h = refl
take-le_bytes (suc n) zero v h = absurd (omega arith)
take-le_bytes (suc n) (suc m) v h =
    ap (λ t. v % 256 ∷ t) (take-le_bytes n m (v / 256) (omega arith))

pub count_small : (t : Conversion) (n : ℕ) → n * size t < 2 ^ 32 → n < 2 ^ 32
count_small t n h = grind (arith, size_bounds t)

take_repeat_none :
    (fmt : List ℕ) (args : List Arg) → NoStar fmt → take_repeat fmt args ≡ ret (1, fmt, args)
unfolding take_repeat
take_repeat_none _ args (no_star c rest h) = rw (ne→== c b'*' h, take_repeat)

module _ (later : List ℕ → List Arg → ℕ → List ℕ → Packed) (nbytes : ℕ) (fmt : List ℕ)
    (args : List Arg) (bufsize nwritten : ℕ) (buffer src : List ℕ) where
  pack_bytes_full :
      bufsize < nwritten + nbytes
      → pack_bytes later nbytes fmt args bufsize nwritten buffer src ≡ ret (neg e2big, buffer)
  unfolding pack_bytes
  pack_bytes_full h = rw (lt→ltb bufsize (nwritten + nbytes) h)

  pack_bytes_fits :
      nwritten + nbytes ≤ bufsize
      → bufsize ≤ length buffer
      → nbytes ≤ length src
      → pack_bytes later nbytes fmt args bufsize nwritten buffer src
        ≡ later fmt args (nwritten + nbytes) (write_at buffer nwritten (take nbytes src))
  unfolding pack_bytes
  pack_bytes_fits h room enough = rw (
    le→ltb bufsize (nwritten + nbytes) h,
    le→ltb (length src) nbytes enough,
    le→ltb (length buffer) (nwritten + nbytes) (omega arith),
  )

pub one_bytes : (t : Conversion) → 1 * size t % 2 ^ 32 ≡ size t
one_bytes t = omega (arith, size_bounds t)

-- The round of a value, down to the copy.
round_one :
    (t : Conversion) (v fuel bufsize nwritten : ℕ) (rest : List ℕ) (args : List Arg)
    (buffer : List ℕ)
    → packf_loop (suc fuel) bufsize (b'%' ∷ (chars t ++ rest)) (val v ∷ args) nwritten buffer
      ≡ pack_bytes
          (packf_loop fuel bufsize)
          (size t)
          rest
          args
          bufsize
          nwritten
          buffer
          (le_bytes 8 v)
unfolding packf_loop pack_round pack_typed source_arg integral_arg
round_one t v fuel bufsize nwritten rest args buffer = rw (
  take_repeat_none (chars t ++ rest) (val v ∷ args) (chars-NoStar t rest),
  simulate_chars t rest,
  le→ltb 9 (fmt_code t) (code_max t),
  valsize_code t,
  fmtlen_chars t rest,
  one_bytes t,
)

-- The round of an array.
round_many :
    (t : Conversion) (n fuel bufsize nwritten : ℕ) (rest : List ℕ) (args : List Arg)
    (bytes buffer : List ℕ)
    → 1 < n
    → n * size t < 2 ^ 32
    → packf_loop
        (suc fuel)
        bufsize
        (b'%' ∷ b'*' ∷ (chars t ++ rest))
        (val n ∷ ptr bytes ∷ args)
        nwritten
        buffer
      ≡ pack_bytes (packf_loop fuel bufsize) (n * size t) rest args bufsize nwritten buffer bytes
unfolding packf_loop pack_round pack_typed source_arg pointer_arg take_repeat count_arg
round_many t n fuel bufsize nwritten rest args bytes buffer more small = rw (
  mod-eq_of_lt (count_small t n small),
  ne→== n 0 (omega arith),
  simulate_chars t rest,
  le→ltb 9 (fmt_code t) (code_max t),
  ne→== n 1 (omega arith),
  valsize_code t,
  fmtlen_chars t rest,
  mod-eq_of_lt small,
)

-- The source of a field holds its bytes, and the copy takes just them.
source_one :
    (t : Conversion) (v : ℕ)
    → (size t ≤ length (le_bytes 8 v)) × (take (size t) (le_bytes 8 v) ≡ le_bytes (size t) v)
source_one t v = (
  omega (arith, length-le_bytes 8 v, size_bounds t),
  take-le_bytes (size t) 8 v (omega (arith, size_bounds t)),
)

-- A field that does not fit is reported, and the buffer is left alone.
step_full :
    (field : Field) (fields : List Field) (fuel bufsize nwritten : ℕ) (buffer : List ℕ)
    → IsField field
    → bufsize < nwritten + length (field_bytes field)
    → packf_loop
        (suc fuel)
        bufsize
        (format (field ∷ fields))
        (pack_args (field ∷ fields))
        nwritten
        buffer
      ≡ ret (neg e2big, buffer)
unfolding format pack_args field_bytes
step_full (one t v) fields fuel bufsize nwritten buffer ok h =
    round_one t v fuel bufsize nwritten (format fields) (pack_args fields) buffer
    ∙ pack_bytes_full _ (size t) _ _ bufsize nwritten buffer _
        (omega (arith, length-le_bytes (size t) v))
step_full (many t n bytes) fields fuel bufsize nwritten buffer (more, small, len) h =
    round_many t n fuel bufsize nwritten (format fields) (pack_args fields) bytes buffer more small
    ∙ pack_bytes_full _ (n * size t) _ _ bufsize nwritten buffer _
        (omega (arith, length-field_bytes_many t n bytes len))

-- The loop goes on behind the bytes of a field that fits.
step_fits :
    (field : Field) (fields : List Field) (fuel bufsize nwritten : ℕ) (buffer : List ℕ)
    → IsField field
    → nwritten + length (field_bytes field) ≤ bufsize
    → bufsize ≤ length buffer
    → packf_loop
        (suc fuel)
        bufsize
        (format (field ∷ fields))
        (pack_args (field ∷ fields))
        nwritten
        buffer
      ≡ packf_loop fuel bufsize
          (format fields)
          (pack_args fields)
          (nwritten + length (field_bytes field))
          (write_at buffer nwritten (field_bytes field))
unfolding format pack_args field_bytes
step_fits (one t v) fields fuel bufsize nwritten buffer ok h space =
    round_one t v fuel bufsize nwritten (format fields) (pack_args fields) buffer
    ∙ pack_bytes_fits _ (size t) _ _ bufsize nwritten buffer _
        (omega (arith, length-le_bytes (size t) v)) space (source_one t v).0
    ∙ rw (length-le_bytes (size t) v, (source_one t v).1)
step_fits (many t n bytes) fields fuel bufsize nwritten buffer (more, small, len) h space =
    round_many t n fuel bufsize nwritten (format fields) (pack_args fields) bytes buffer more small
    ∙ pack_bytes_fits _ (n * size t) _ _ bufsize nwritten buffer _
        (omega (arith, length-field_bytes_many t n bytes len)) space len
    ∙ rw (length-field_bytes_many t n bytes len)

pub format_longer :
    (field : Field) (fields : List Field)
    → length (format fields) < length (format (field ∷ fields))
unfolding format
format_longer (one t v) fields = omega (arith, length-append (chars t) (format fields))
format_longer (many t n bytes) fields = omega (arith, length-append (chars t) (format fields))

pub length-encode_cons :
    (field : Field) (fields : List Field)
    → length (encode (field ∷ fields)) ≡ length (field_bytes field) + length (encode fields)
unfolding encode
length-encode_cons field fields = length-append (field_bytes field) (encode fields)

pub encode_cons :
    (field : Field) (fields : List Field)
    → encode (field ∷ fields) ≡ field_bytes field ++ encode fields
unfolding encode
encode_cons field fields = refl

packf_loop-encode :
    (fields : List Field) (fuel bufsize nwritten : ℕ) (buffer : List ℕ)
    → All IsField fields
    → length (format fields) ≤ fuel
    → nwritten + length (encode fields) ≤ bufsize
    → bufsize ≤ length buffer
    → packf_loop fuel bufsize (format fields) (pack_args fields) nwritten buffer
      ≡ ret (pos (nwritten + length (encode fields)), write_at buffer nwritten (encode fields))
packf_loop-encode [] fuel bufsize nwritten buffer ok hf h space =
    unfold packf_loop format encode in rw (add-zero, write_at-nil buffer nwritten)
packf_loop-encode (field ∷ fields) zero bufsize nwritten buffer ok hf h space =
    absurd (omega (arith, format_longer field fields))
packf_loop-encode (field ∷ fields) (suc fuel) bufsize nwritten buffer (ok, oks) hf h space =
    let bytes = field_bytes field in
    let len = length-encode_cons field fields in
    step_fits field fields fuel bufsize nwritten buffer ok (omega (arith, len)) space
    ∙ packf_loop-encode fields fuel bufsize (nwritten + length bytes)
        (write_at buffer nwritten bytes) oks (omega (arith, format_longer field fields))
        (omega (arith, len))
        (omega (arith, length-write_at buffer nwritten bytes (omega (arith, len))))
    ∙ rw (
      len,
      add_assoc nwritten (length bytes) (length (encode fields)),
      write_at-append,
      encode_cons,
    )

packf_loop_full :
    (fields : List Field) (fuel bufsize nwritten : ℕ) (buffer : List ℕ)
    → All IsField fields
    → length (format fields) ≤ fuel
    → nwritten ≤ bufsize
    → bufsize < nwritten + length (encode fields)
    → bufsize ≤ length buffer
    → (buffer' : List ℕ) × (packf_loop fuel bufsize
          (format fields)
          (pack_args fields)
          nwritten
          buffer
        ≡ ret (neg e2big, buffer'))
      × (length buffer' ≡ length buffer)
packf_loop_full [] fuel bufsize nwritten buffer ok hf start h space =
    absurd (unfold encode in omega arith)
packf_loop_full (field ∷ fields) zero bufsize nwritten buffer ok hf start h space =
    absurd (omega (arith, format_longer field fields))
packf_loop_full (field ∷ fields) (suc fuel) bufsize nwritten buffer (ok, oks) hf start h space =
    let bytes = field_bytes field in
    let len = length-encode_cons field fields in
    elim (Bool-cases (ltb bufsize (nwritten + length bytes))) [
      | inl large ↦
          (buffer, step_full field fields fuel bufsize nwritten buffer ok (ground arith), refl)
      | inr small ↦
          let fit : nwritten + length bytes ≤ bufsize = ground arith in
          let same = length-write_at buffer nwritten bytes (omega arith) in
          let (buffer', e, e') =
            packf_loop_full fields fuel bufsize (nwritten + length bytes)
              (write_at buffer nwritten bytes) oks (omega (arith, format_longer field fields)) fit
              (omega (arith, len)) (omega (arith, same)) in
          (buffer', step_fits field fields fuel bufsize nwritten buffer ok fit space ∙ e, e' ∙ same)
    ]

-- `packf` without room for all fields returns -E2BIG, and the buffer keeps its length.
pub packf_full :
    (fields : List Field) (bufsize : ℕ) (buffer : List ℕ)
    → All IsField fields
    → bufsize < length (encode fields)
    → bufsize ≤ length buffer
    → (buffer' : List ℕ) × (packf buffer bufsize (format fields) (pack_args fields)
        ≡ ret (neg e2big, buffer'))
      × (length buffer' ≡ length buffer)
unfolding packf
packf_full fields bufsize buffer ok h space =
    packf_loop_full fields _ bufsize 0 buffer ok (omega arith) (omega arith) (omega arith) space

-- `packf` with room for all fields writes their bytes to the start of the buffer, leaves the rest of it
-- alone, and returns their number.
pub packf-encode :
    (fields : List Field) (bufsize : ℕ) (buffer : List ℕ)
    → All IsField fields
    → length (encode fields) ≤ bufsize
    → bufsize ≤ length buffer
    → packf buffer bufsize (format fields) (pack_args fields)
      ≡ ret (pos (length (encode fields)), encode fields ++ drop (length (encode fields)) buffer)
unfolding packf write_at
packf-encode fields bufsize buffer ok h space =
    packf_loop-encode fields _ bufsize 0 buffer ok (omega arith) (omega arith) space ∙ rw zero-add
