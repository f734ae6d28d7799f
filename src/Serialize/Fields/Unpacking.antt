-- ===== src/Serialize/Fields/Unpacking.antt =====
-- `unpackf` reads back the bytes of the fields that stand in the buffer, and undoes `packf`.
use amdgpu_fand.Base.{
  ℕ, zero, suc, ◌+◌, ◌*◌, ◌^◌, ◌≤◌, ◌<◌, ◌≡◌, refl, sym, ◌∙◌, arith, List, [], ◌∷◌, ◌++◌, length,
  drop, All, pos, ne→==, le→ltb, length-append, append-nil, append_assoc, take-append, drop-append,
  drop-drop,
}
use amdgpu_fand.Serialize.Outcome.{ret, ◌>>=◌}
use amdgpu_fand.Serialize.Conversion.{Conversion, fmt_code, chars, size, simulate_chars}
use amdgpu_fand.Serialize.Bytes.{length-le_bytes}
use amdgpu_fand.Serialize.Pack.{packf}
use amdgpu_fand.Serialize.Unpack.{
  Dest, count, room, Unpacked, take_repeat, count_dest, pointer_dest, unpack_bytes, unpack_typed,
  unpack_round, unpackf_loop, unpackf,
}
use amdgpu_fand.Serialize.Fields.{
  Field, one, many, IsField, format, pack_args, Reads, reads_nil, reads_one, reads_many,
  field_bytes, encode, length-field_bytes_many, fmtlen_chars, valsize_code, code_max, NoStar,
  no_star, chars-NoStar,
}
use amdgpu_fand.Serialize.Fields.Packing.{
  count_small, one_bytes, format_longer, length-encode_cons, encode_cons, packf-encode,
}
use mathlib.Core.List.{map}
use native.Mathlib.Nat.{mod-eq_of_lt, add-zero, zero-add, add_assoc}

take_repeat_none :
    (fmt : List ℕ) (args : List Dest) → NoStar fmt → take_repeat fmt args ≡ ret (1, fmt, args)
unfolding take_repeat
take_repeat_none _ args (no_star c rest h) = rw (ne→== c b'*' h, take_repeat)

-- The round of a value and the round of an array, down to the copy.
round_one :
    (t : Conversion) (r fuel bufsize nread : ℕ) (rest : List ℕ) (args : List Dest) (buffer : List ℕ)
    (out : List (List ℕ))
    → unpackf_loop (suc fuel) buffer bufsize (b'%' ∷ (chars t ++ rest)) (room r ∷ args) nread out
      ≡ unpack_bytes
          (unpackf_loop fuel buffer bufsize)
          (size t)
          rest
          args
          buffer
          bufsize
          nread
          out
          r
unfolding unpackf_loop unpack_round unpack_typed pointer_dest
round_one t r fuel bufsize nread rest args buffer out = rw (
  take_repeat_none (chars t ++ rest) (room r ∷ args) (chars-NoStar t rest),
  simulate_chars t rest,
  le→ltb 9 (fmt_code t) (code_max t),
  valsize_code t,
  fmtlen_chars t rest,
  one_bytes t,
)

pub round_many :
    (t : Conversion) (n r fuel bufsize nread : ℕ) (rest : List ℕ) (args : List Dest)
    (buffer : List ℕ) (out : List (List ℕ))
    → 1 < n
    → n * size t < 2 ^ 32
    → unpackf_loop
        (suc fuel)
        buffer
        bufsize
        (b'%' ∷ b'*' ∷ (chars t ++ rest))
        (count n ∷ room r ∷ args)
        nread
        out
      ≡ unpack_bytes
          (unpackf_loop fuel buffer bufsize)
          (n * size t)
          rest
          args
          buffer
          bufsize
          nread
          out
          r
unfolding unpackf_loop unpack_round unpack_typed pointer_dest take_repeat count_dest
round_many t n r fuel bufsize nread rest args buffer out more small = rw (
  mod-eq_of_lt (count_small t n small),
  ne→== n 0 (omega arith),
  simulate_chars t rest,
  le→ltb 9 (fmt_code t) (code_max t),
  valsize_code t,
  fmtlen_chars t rest,
  mod-eq_of_lt small,
)

-- The copy of bytes that stand in the buffer and fit behind the pointer.
unpack_bytes_fits :
    (later : List ℕ → List Dest → ℕ → List (List ℕ) → Unpacked) (nbytes : ℕ) (fmt : List ℕ)
    (args : List Dest) (buffer : List ℕ) (bufsize nread : ℕ) (out : List (List ℕ)) (space : ℕ)
    (bytes rest : List ℕ)
    → nread + nbytes ≤ bufsize
    → bufsize ≤ length buffer
    → nbytes ≤ space
    → length bytes ≡ nbytes
    → drop nread buffer ≡ bytes ++ rest
    → unpack_bytes later nbytes fmt args buffer bufsize nread out space
      ≡ later fmt args (nread + nbytes) (out ++ (bytes ∷ []))
unfolding unpack_bytes
unpack_bytes_fits later nbytes fmt args buffer bufsize nread out space bytes rest h inside enough
      len at =
    rw (
      le→ltb bufsize (nread + nbytes) h,
      le→ltb space nbytes enough,
      le→ltb (length buffer) (nread + nbytes) (omega arith),
      at,
      ← len,
      take-append bytes rest,
    )

next_at :
    (field : Field) (fields : List Field) (nread : ℕ) (buffer rest : List ℕ)
    → drop nread buffer ≡ encode (field ∷ fields) ++ rest
    → (drop nread buffer ≡ field_bytes field ++ (encode fields ++ rest))
      × (drop (nread + length (field_bytes field)) buffer ≡ encode fields ++ rest)
next_at field fields nread buffer rest at =
    let here : drop nread buffer ≡ field_bytes field ++ (encode fields ++ rest) =
      at ∙ rw (encode_cons, append_assoc) in
    (
      here,
      sym (drop-drop (length (field_bytes field)) nread buffer)
          ∙ rw here (drop-append (field_bytes field) (encode fields ++ rest)),
    )

-- The results before and after a field is added to what has been read.
result_cons :
    (field : Field) (fields : List Field) (nread n : ℕ) (out : List (List ℕ))
    → length (field_bytes field) ≡ n
    → ◌≡◌ {A = Unpacked}
        (ret (
          pos (nread + n + length (encode fields)),
          (out ++ (field_bytes field ∷ [])) ++ map field_bytes fields,
        ))
        (ret
          (pos (nread + length (encode (field ∷ fields))), out ++ map field_bytes (field ∷ fields)))
result_cons field fields nread n out len =
    rw (
      length-encode_cons field fields,
      add_assoc nread n (length (encode fields)),
      len,
      append_assoc,
    )

unpackf_loop-encode :
    {fields : List Field} {dests : List Dest} (fuel bufsize nread : ℕ) (buffer rest : List ℕ)
    (out : List (List ℕ))
    → Reads fields dests
    → All IsField fields
    → length (format fields) ≤ fuel
    → nread + length (encode fields) ≤ bufsize
    → bufsize ≤ length buffer
    → drop nread buffer ≡ encode fields ++ rest
    → unpackf_loop fuel buffer bufsize (format fields) dests nread out
      ≡ ret (pos (nread + length (encode fields)), out ++ map field_bytes fields)
unfolding format
unpackf_loop-encode fuel bufsize nread buffer rest out reads_nil ok hf h space at =
    unfold unpackf_loop encode in rw (add-zero, append-nil)
unpackf_loop-encode zero bufsize nread buffer rest out (reads_one {fields = fields} t v r fit reads)
      ok hf h space at =
    absurd (omega (arith, format_longer (one t v) fields))
unpackf_loop-encode zero bufsize nread buffer rest out
      (reads_many {fields = fields} t n r bytes fit reads) ok hf h space at =
    absurd (omega (arith, format_longer (many t n bytes) fields))
unpackf_loop-encode (suc fuel) bufsize nread buffer rest out
      (reads_one {fields = fields} {dests = dests} t v r fit reads) (ok, oks) hf h space at =
    let field = one t v in
    let len : length (field_bytes field) ≡ size t =
      unfold field_bytes in length-le_bytes (size t) v in
    let more = length-encode_cons field fields in
    let (here, there) = next_at field fields nread buffer rest at in
    round_one t r fuel bufsize nread (format fields) dests buffer out
    ∙ unpack_bytes_fits (unpackf_loop fuel buffer bufsize) (size t) (format fields) dests buffer
        bufsize nread out r (field_bytes field) (encode fields ++ rest) (omega (arith, len, more))
        space fit len here
    ∙ unpackf_loop-encode fuel bufsize (nread + size t) buffer rest
        (out ++ (field_bytes field ∷ [])) reads oks (omega (arith, format_longer field fields))
        (omega (arith, len, more)) space (rw len at there)
    ∙ result_cons field fields nread (size t) out len
unpackf_loop-encode (suc fuel) bufsize nread buffer rest out
      (reads_many {fields = fields} {dests = dests} t n r bytes fit reads) (ok, oks) hf h space at =
    let field = many t n bytes in
    let len : length (field_bytes field) ≡ n * size t = length-field_bytes_many t n bytes ok.2 in
    let more = length-encode_cons field fields in
    let (here, there) = next_at field fields nread buffer rest at in
    round_many t n r fuel bufsize nread (format fields) dests buffer out ok.0 ok.1
    ∙ unpack_bytes_fits (unpackf_loop fuel buffer bufsize) (n * size t) (format fields) dests buffer
        bufsize nread out r (field_bytes field) (encode fields ++ rest) (omega (arith, len, more))
        space fit len here
    ∙ unpackf_loop-encode fuel bufsize (nread + n * size t) buffer rest
        (out ++ (field_bytes field ∷ [])) reads oks (omega (arith, format_longer field fields))
        (omega (arith, len, more)) space (rw len at there)
    ∙ result_cons field fields nread (n * size t) out len

-- Where the buffer begins with the bytes of the fields, `unpackf` returns their number and stores the bytes
-- of each field.
pub unpackf-encode :
    {fields : List Field} {dests : List Dest} (bufsize : ℕ) (rest : List ℕ)
    → Reads fields dests
    → All IsField fields
    → length (encode fields) ≤ bufsize
    → bufsize ≤ length (encode fields ++ rest)
    → unpackf (encode fields ++ rest) bufsize (format fields) dests
      ≡ ret (pos (length (encode fields)), map field_bytes fields)
unfolding unpackf
unpackf-encode {fields} bufsize rest reads ok h space =
    unpackf_loop-encode _ bufsize 0 (encode fields ++ rest) rest [] reads ok (omega arith)
      (omega arith) space refl
    ∙ rw zero-add

-- Fields that fit into the buffer are packed, and unpacking what was written, with destinations that have
-- room for them, returns the same number of bytes and stores the bytes of each field.
pub unpackf-packf :
    {fields : List Field} {dests : List Dest} (bufsize : ℕ) (buffer : List ℕ)
    → Reads fields dests
    → All IsField fields
    → length (encode fields) ≤ bufsize
    → bufsize ≤ length buffer
    → (packf buffer bufsize (format fields) (pack_args fields) >>= λ r.
        unpackf r.1 (length (encode fields)) (format fields) dests)
      ≡ ret (pos (length (encode fields)), map field_bytes fields)
unpackf-packf {fields} bufsize buffer reads ok h space =
    rw (packf-encode fields bufsize buffer ok h space) (
      unpackf-encode (length (encode fields)) _ reads ok (omega arith)
        (omega (arith, length-append (encode fields) (drop (length (encode fields)) buffer))))
