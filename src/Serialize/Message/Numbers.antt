-- ===== src/Serialize/Message/Numbers.antt =====
-- Responses with a number: the client reads what the daemon packed.
use amdgpu_fand.Base.{
  ℕ, ◌+◌, ◌-◌, ◌^◌, ◌≤◌, ◌<◌, ◌≡◌, ap, ◌∙◌, arith, List, [], ◌∷◌, ◌++◌, length, drop, ℤ, pos,
  negsuc, int_pattern, pos_part, IsInt, int_of-int_pattern, length-append, append-nil, codes,
}
use mathlib.Core.List.{map}
use native.Mathlib.Nat.{mod-eq_of_lt, add-zero}
use amdgpu_fand.Serialize.Outcome.{Outcome, ret, ◌>>=◌}
use amdgpu_fand.Serialize.Conversion.{hhu, d}
use amdgpu_fand.Serialize.Bytes.{le_bytes, length-le_bytes, from_le, from_le-le_bytes}
use amdgpu_fand.Serialize.Pack.{packf}
use amdgpu_fand.Serialize.Unpack.{room, unpackf}
use amdgpu_fand.Serialize.Fields.{
  Field, one, format, pack_args, Reads, reads_nil, reads_one, field_bytes, encode,
}
use amdgpu_fand.Serialize.Fields.Packing.{packf-encode}
use amdgpu_fand.Serialize.Fields.Unpacking.{unpackf-encode}
use amdgpu_fand.Serialize.Message.{
  ipc_rsp_ok, ipc_rsp_err, pack_error, pack_speed, pack_temp, pack_exit_rsp, unset, number, Reading,
  stored_number, byte_at, equals, finish, read_number, unpack_int_body, unpack_int, unpack_speed,
  unpack_temp, unpack_exit_body, unpack_exit_rsp,
}

-- The bytes of a response with a number.
abbrev pub number_message : ℕ → ℤ → List ℕ
number_message rsp v = 6 ∷ rsp ∷ le_bytes 4 (int_pattern v)

abbrev header_fields : ℕ → ℕ → List Field
header_fields len rsp = one hhu len ∷ one hhu rsp ∷ []

abbrev number_fields : ℕ → ℤ → List Field
number_fields rsp v = one hhu 6 ∷ one hhu rsp ∷ one d (int_pattern v) ∷ []

pub byte_bytes : (v : ℕ) → v < 256 → le_bytes 1 v ≡ v ∷ []
unfolding le_bytes
byte_bytes v h = rw (mod-eq_of_lt h)

header_bytes :
    (len rsp : ℕ) → len < 256 → rsp < 256 → encode (header_fields len rsp) ≡ len ∷ rsp ∷ []
unfolding encode field_bytes
header_bytes len rsp h h' = rw (byte_bytes len h, byte_bytes rsp h')

header_chunks :
    (len rsp : ℕ)
    → len < 256
    → rsp < 256
    → map field_bytes (header_fields len rsp) ≡ (len ∷ []) ∷ (rsp ∷ []) ∷ []
unfolding field_bytes
header_chunks len rsp h h' = rw (byte_bytes len h, byte_bytes rsp h')

header-Reads : (len rsp : ℕ) → Reads (header_fields len rsp) (room 1 ∷ room 1 ∷ [])
header-Reads len rsp =
    reads_one hhu len 1 (omega arith) (reads_one hhu rsp 1 (omega arith) reads_nil)

-- The two header bytes are read from any message that has them.
pub unpack_header :
    (len rsp bufsize : ℕ) (rest : List ℕ)
    → len < 256
    → rsp < 256
    → 2 ≤ bufsize
    → bufsize ≤ length rest + 2
    → unpackf (len ∷ rsp ∷ rest) bufsize (codes "%hhu%hhu") (room 1 ∷ room 1 ∷ [])
      ≡ ret (pos 2, (len ∷ []) ∷ (rsp ∷ []) ∷ [])
unfolding format
unpack_header len rsp bufsize rest h h' lo hi =
    let e = header_bytes len rsp h h' in
    let read =
      unpackf-encode bufsize rest (header-Reads len rsp) (tt, (tt, tt)) (rw e (omega arith))
        (rw e (omega arith)) in
    rw (e, header_chunks len rsp h h') at read

encode_number : (p : ℕ) → encode (one d p ∷ []) ≡ le_bytes 4 p
unfolding encode field_bytes
encode_number p = append-nil (le_bytes 4 p)

number_read :
    (p bufsize : ℕ) (rest : List ℕ)
    → 4 ≤ bufsize
    → bufsize ≤ length rest + 4
    → unpackf (le_bytes 4 p ++ rest) bufsize (codes "%d") (room 4 ∷ [])
      ≡ ret (pos 4, le_bytes 4 p ∷ [])
unfolding format field_bytes
number_read p bufsize rest lo hi =
    let e = encode_number p in
    let len = length-le_bytes 4 p in
    let read =
      unpackf-encode bufsize rest (reads_one d p 4 (omega arith) reads_nil) (tt, tt)
        (rw (e, len) (omega arith))
        (rw e (omega (arith, len, length-append (le_bytes 4 p) rest))) in
    rw (e, len) at read

-- The number behind the header.
pub read_number_lem :
    (a b p bufsize : ℕ) (rest : List ℕ)
    → 6 ≤ bufsize
    → bufsize ≤ length rest + 6
    → read_number (a ∷ b ∷ (le_bytes 4 p ++ rest)) bufsize 2 ≡ ret (pos 6, le_bytes 4 p ∷ [])
read_number_lem a b p bufsize rest lo hi =
    unfold read_number in rw (number_read p (bufsize - 2) rest (omega arith) (omega arith))

int_pattern-lt : (v : ℤ) → int_pattern v < 256 ^ 4
int_pattern-lt (pos n) = omega arith
int_pattern-lt (negsuc n) = omega arith

stored_number_lem : (v : ℤ) → IsInt v → stored_number (le_bytes 4 (int_pattern v) ∷ []) ≡ number v
unfolding stored_number
stored_number_lem v h =
    rw (from_le-le_bytes 4 (int_pattern v) (int_pattern-lt v), int_of-int_pattern v h)

-- A response with a number is read with its kind and its number, whatever follows it.
pub unpack_int-message :
    (rsp bufsize : ℕ) (v : ℤ) (rest : List ℕ)
    → rsp < 256
    → IsInt v
    → 6 ≤ bufsize
    → bufsize ≤ length rest + 6
    → unpack_int (number_message rsp v ++ rest) bufsize ≡ ret (pos rsp, number v)
unfolding unpack_int unpack_int_body finish equals byte_at from_le
unpack_int-message rsp bufsize v rest h int lo hi = rw (
  unpack_header 6 rsp bufsize (le_bytes 4 (int_pattern v) ++ rest) (omega arith) h (omega arith) (
      omega (
        arith,
        length-append (le_bytes 4 (int_pattern v)) rest,
        length-le_bytes 4 (int_pattern v),
      )),
  read_number_lem 6 rsp (int_pattern v) bufsize rest lo hi,
  stored_number_lem v int,
  add-zero rsp,
)

number_bytes : (rsp : ℕ) (v : ℤ) → rsp < 256 → encode (number_fields rsp v) ≡ number_message rsp v
unfolding encode field_bytes
number_bytes rsp v h = rw (byte_bytes 6 (omega arith), byte_bytes rsp h, append-nil)

-- A response with a number is packed as its six bytes.
pub pack_number :
    (buffer : List ℕ) (rsp bufsize : ℕ) (v : ℤ)
    → rsp < 256
    → 6 ≤ bufsize
    → bufsize ≤ length buffer
    → packf buffer bufsize (codes "%hhu%hhu%d") (pack_args (number_fields rsp v))
      ≡ ret (pos 6, number_message rsp v ++ drop 6 buffer)
unfolding format
pack_number buffer rsp bufsize v h lo hi =
    let e = number_bytes rsp v h in
    let len = length-le_bytes 4 (int_pattern v) in
    let packed =
      packf-encode (number_fields rsp v) bufsize buffer (tt, (tt, (tt, tt)))
        (rw e (omega (arith, len))) hi in
    let count : length (number_message rsp v) ≡ 6 = omega (arith, len) in
    (rw e at packed) ∙ ap (λ n. ret (pos n, number_message rsp v ++ drop n buffer)) count

-- The number response behind the kind of an error is read by `unpack_exit_rsp` as well.
pub unpack_exit-error :
    (bufsize : ℕ) (v : ℤ) (rest : List ℕ)
    → IsInt v
    → 6 ≤ bufsize
    → bufsize ≤ length rest + 6
    → unpack_exit_rsp (number_message 1 v ++ rest) bufsize ≡ ret (pos 1, number v)
unfolding unpack_exit_rsp unpack_exit_body finish equals byte_at from_le
unpack_exit-error bufsize v rest int lo hi = rw (
  unpack_header 6 1 bufsize (le_bytes 4 (int_pattern v) ++ rest) (omega arith) (omega arith)
      (omega arith)
      (omega (
        arith,
        length-append (le_bytes 4 (int_pattern v)) rest,
        length-le_bytes 4 (int_pattern v),
      )),
  read_number_lem 6 1 (int_pattern v) bufsize rest lo hi,
  stored_number_lem v int,
)

-- The response to an exit request is two bytes.
pub pack_exit_bytes :
    (buffer : List ℕ) (bufsize : ℕ)
    → 2 ≤ bufsize
    → bufsize ≤ length buffer
    → pack_exit_rsp buffer bufsize ≡ ret (pos 2, 2 ∷ 0 ∷ drop 2 buffer)
unfolding pack_exit_rsp format pack_args
pack_exit_bytes buffer bufsize lo hi =
    let e = header_bytes 2 0 (omega arith) (omega arith) in
    let packed = packf-encode (header_fields 2 0) bufsize buffer (tt, (tt, tt)) (rw e lo) hi in
    rw e at packed

pub unpack_exit-ok :
    (bufsize : ℕ) (rest : List ℕ)
    → 2 ≤ bufsize
    → bufsize ≤ length rest + 2
    → unpack_exit_rsp (2 ∷ 0 ∷ rest) bufsize ≡ ret (pos 0, unset)
unfolding unpack_exit_rsp unpack_exit_body finish equals byte_at from_le
unpack_exit-ok bufsize rest lo hi =
    rw (unpack_header 2 0 bufsize rest (omega arith) (omega arith) lo hi)

module _ (buffer : List ℕ) (bufsize : ℕ) (v : ℤ) (lo : 6 ≤ bufsize)
    (hi : bufsize ≤ length buffer) where
  pub pack_speed_bytes :
      pack_speed buffer bufsize v ≡ ret (pos 6, number_message 0 v ++ drop 6 buffer)
  unfolding pack_speed pack_args
  pack_speed_bytes = pack_number buffer 0 bufsize v (omega arith) lo hi

  pub pack_temp_bytes :
      pack_temp buffer bufsize v ≡ ret (pos 6, number_message 0 v ++ drop 6 buffer)
  unfolding pack_temp pack_args
  pack_temp_bytes = pack_number buffer 0 bufsize v (omega arith) lo hi

  pub pack_error_bytes :
      pack_error buffer bufsize v ≡ ret (pos 6, number_message 1 v ++ drop 6 buffer)
  unfolding pack_error pack_args
  pack_error_bytes = pack_number buffer 1 bufsize v (omega arith) lo hi

-- What a client reads of a call of a packing routine, given as many bytes as were packed.
abbrev pub received : (List ℕ → ℕ → Reading) → Outcome (ℤ × List ℕ) → Reading
received read packed = packed >>= λ r. read r.1 (pos_part r.0)

module _ (buffer : List ℕ) (bufsize : ℕ) (v : ℤ) (int : IsInt v) (lo : 6 ≤ bufsize)
    (hi : bufsize ≤ length buffer) where
  -- In a buffer with room for six bytes every number of type `int` comes through: a speed and a temperature
  -- with the kind `ok`, an error with the kind `err`, which the reader of exit responses sees as well; and
  -- the response to an exit request comes through.
  pub unpack-pack :
      (received unpack_speed (pack_speed buffer bufsize v) ≡ ret (pos ipc_rsp_ok, number v))
      × (received unpack_temp (pack_temp buffer bufsize v) ≡ ret (pos ipc_rsp_ok, number v))
      × (received unpack_speed (pack_error buffer bufsize v) ≡ ret (pos ipc_rsp_err, number v))
      × (received unpack_temp (pack_error buffer bufsize v) ≡ ret (pos ipc_rsp_err, number v))
      × (received unpack_exit_rsp (pack_error buffer bufsize v) ≡ ret (pos ipc_rsp_err, number v))
      × (received unpack_exit_rsp (pack_exit_rsp buffer bufsize) ≡ ret (pos ipc_rsp_ok, unset))
  unfolding unpack_speed pack_speed unpack_temp pack_temp pack_error pack_args
  unpack-pack =
      let rest = drop 6 buffer in
      let p0 = pack_number buffer 0 bufsize v (omega arith) lo hi in
      let p1 = pack_number buffer 1 bufsize v (omega arith) lo hi in
      let u0 = unpack_int-message 0 6 v rest (omega arith) int (omega arith) (omega arith) in
      let u1 = unpack_int-message 1 6 v rest (omega arith) int (omega arith) (omega arith) in
      let x1 = unpack_exit-error 6 v rest int (omega arith) (omega arith) in
      (
        rw p0 u0,
        rw p0 u0,
        rw p1 u1,
        rw p1 u1,
        rw p1 x1,
        rw (pack_exit_bytes buffer bufsize (omega arith) hi)
            (unpack_exit-ok 2 (drop 2 buffer) (omega arith) (omega arith)),
      )
