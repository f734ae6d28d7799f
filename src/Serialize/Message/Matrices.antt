-- ===== src/Serialize/Message/Matrices.antt =====
-- The response with the fan curve.
use amdgpu_fand.Base.{
  ℕ, ◌+◌, ◌-◌, ◌*◌, ◌%◌, ◌≤◌, ◌<◌, ◌≡◌, ap, ◌∙◌, arith, List, [], ◌∷◌, ◌++◌, length, drop, take,
  pos, ◌+ℤ◌, length-append, append-nil, length-take, take_all, codes, lt→ltb, le→ltb,
}
use mathlib.Core.List.{map}
use native.Mathlib.Nat.{add-zero}
use amdgpu_fand.Serialize.Outcome.{ret, undefined}
use amdgpu_fand.Serialize.Conversion.{hhu}
use amdgpu_fand.Serialize.Bytes.{from_le}
use amdgpu_fand.Serialize.Unpack.{Dest, Unpacked, room, count, unpackf, unpack_bytes}
use amdgpu_fand.Serialize.Fields.{
  Field, one, many, format, pack_args, reads_nil, reads_one, reads_many, field_bytes, encode,
}
use amdgpu_fand.Serialize.Fields.Packing.{packf-encode}
use amdgpu_fand.Serialize.Fields.Unpacking.{unpackf-encode, round_many}
use amdgpu_fand.Serialize.Message.{
  ipc_rsp_ok, pack_matrix, UnpackResult, rows, stored_rows, byte_at, equals, finish, finish_checked,
  unpack_rows, unpack_matrix_body, unpack_matrix,
}
use amdgpu_fand.Serialize.Message.Numbers.{unpack_header, byte_bytes, received}

-- The bytes of a response with `n` rows.
abbrev pub matrix_message : ℕ → List ℕ → List ℕ
matrix_message n matrix = (2 * n + 3) ∷ 0 ∷ n ∷ take (2 * n * 1) matrix

abbrev matrix_fields : ℕ → List ℕ → List Field
matrix_fields n matrix =
    one hhu ((1 + (n * 2 + 2)) % 256) ∷ one hhu 0 ∷ one hhu n ∷ many hhu (2 * n) matrix ∷ []

matrix_bytes :
    (n : ℕ) (matrix : List ℕ) → n ≤ 16 → encode (matrix_fields n matrix) ≡ matrix_message n matrix
unfolding encode field_bytes
matrix_bytes n matrix h =
    let e : (1 + (n * 2 + 2)) % 256 ≡ 2 * n + 3 = omega arith in
    rw (
      e,
      byte_bytes (2 * n + 3) (omega arith),
      byte_bytes 0 (omega arith),
      byte_bytes n (omega arith),
      append-nil,
    )

pub pack_matrix_bytes :
    (buffer matrix : List ℕ) (bufsize n : ℕ)
    → 1 ≤ n
    → n ≤ 16
    → 2 * n ≤ length matrix
    → 2 * n + 3 ≤ bufsize
    → bufsize ≤ length buffer
    → pack_matrix buffer bufsize matrix n
      ≡ ret (pos (2 * n + 3), matrix_message n matrix ++ drop (2 * n + 3) buffer)
unfolding pack_matrix format pack_args
pack_matrix_bytes buffer matrix bufsize n some_row fits enough lo hi =
    let e = matrix_bytes n matrix fits in
    let len : length (matrix_message n matrix) ≡ 2 * n + 3 =
      omega (arith, length-take (2 * n * 1) matrix) in
    let packed =
      packf-encode (matrix_fields n matrix) bufsize buffer
        (tt, (tt, (tt, ((omega arith, omega arith, omega arith), tt)))) (rw (e, len) lo) hi in
    (rw e at packed) ∙ ap (λ k. ret (pos k, matrix_message n matrix ++ drop k buffer)) len

-- One byte behind a header.
byte_read :
    (v bufsize : ℕ) (rest : List ℕ)
    → v < 256
    → 1 ≤ bufsize
    → bufsize ≤ length rest + 1
    → unpackf (v ∷ rest) bufsize (codes "%hhu") (room 1 ∷ []) ≡ ret (pos 1, (v ∷ []) ∷ [])
unfolding format field_bytes encode
byte_read v bufsize rest h lo hi =
    let e = byte_bytes v h in
    let read =
      unpackf-encode bufsize rest (reads_one hhu v 1 (omega arith) reads_nil) (tt, tt) (rw e lo)
        (rw e (omega arith)) in
    rw e at read

-- The rows behind their count.
rows_read :
    (n bufsize : ℕ) (bytes rest : List ℕ)
    → 1 ≤ n
    → n ≤ 16
    → length bytes ≡ 2 * n * 1
    → 2 * n ≤ bufsize
    → bufsize ≤ length (bytes ++ rest)
    → unpackf (bytes ++ rest) bufsize (codes "%*hhu") (count (2 * n) ∷ room 32 ∷ [])
      ≡ ret (pos (2 * n), bytes ∷ [])
unfolding format
rows_read n bufsize bytes rest some_row fits len lo hi =
    let all : take (2 * n * 1) bytes ≡ bytes = take_all bytes (2 * n * 1) len in
    let e : encode (many hhu (2 * n) bytes ∷ []) ≡ bytes =
      unfold encode field_bytes in rw (all, append-nil) in
    let read =
      unpackf-encode bufsize rest (reads_many hhu (2 * n) 32 bytes (omega arith) reads_nil)
        ((omega arith, omega arith, omega (arith, len)), tt) (rw e (omega (arith, len)))
        (rw e hi) in
    (rw (e, chunk bytes n all) at read) ∙ ap (λ k. ret (pos k, bytes ∷ [])) (omega (arith, len))
  where
    chunk :
        (bytes : List ℕ) (n : ℕ)
        → take (2 * n * 1) bytes ≡ bytes
        → map field_bytes (many hhu (2 * n) bytes ∷ []) ≡ bytes ∷ []
    chunk bytes n all = unfold field_bytes in rw all

matrix_length :
    (n : ℕ) (result : UnpackResult)
    → finish_checked (pos 3 +ℤ pos (2 * n)) (2 * n + 3 + 0) 0 result ≡ ret (pos 0, result)
unfolding finish_checked finish equals
matrix_length n result = ground arith

-- A message with 1 to 16 rows is read with its rows, whatever follows it.
pub unpack_matrix-message :
    (n bufsize : ℕ) (bytes rest : List ℕ)
    → 1 ≤ n
    → n ≤ 16
    → length bytes ≡ 2 * n * 1
    → 2 * n + 3 ≤ bufsize
    → bufsize ≤ length (bytes ++ rest) + 3
    → unpack_matrix ((2 * n + 3) ∷ 0 ∷ n ∷ (bytes ++ rest)) bufsize ≡ ret (pos 0, rows n bytes)
unfolding unpack_matrix unpack_matrix_body unpack_rows finish_checked finish equals byte_at from_le
    stored_rows
unpack_matrix-message n bufsize bytes rest some_row fits len lo hi =
    rw
      (
        unpack_header (2 * n + 3) 0 bufsize (n ∷ (bytes ++ rest)) (omega arith) (omega arith)
            (omega arith) (omega arith),
        byte_read n (bufsize - 2) (bytes ++ rest) (omega arith) (omega arith) (omega arith),
        add-zero n,
        rows_read n (bufsize - 3) bytes rest some_row fits len (omega arith) (omega arith),
      )
      (matrix_length n (rows n bytes))

-- A curve of 1 to 16 rows comes through a buffer that has room for it: the client gets the kind `ok`, the
-- number of rows and their bytes.
pub unpack_matrix-pack_matrix :
    (buffer matrix : List ℕ) (bufsize n : ℕ)
    → 1 ≤ n
    → n ≤ 16
    → 2 * n ≤ length matrix
    → 2 * n + 3 ≤ bufsize
    → bufsize ≤ length buffer
    → received unpack_matrix (pack_matrix buffer bufsize matrix n)
      ≡ ret (pos ipc_rsp_ok, rows n (take (2 * n) matrix))
unpack_matrix-pack_matrix buffer matrix bufsize n some_row fits enough lo hi =
    let bytes = take (2 * n * 1) matrix in
    let rest = drop (2 * n + 3) buffer in
    let len : length bytes ≡ 2 * n * 1 = omega (arith, length-take (2 * n * 1) matrix) in
    let same : 2 * n * 1 ≡ 2 * n = omega arith in
    rw (pack_matrix_bytes buffer matrix bufsize n some_row fits enough lo hi) (
      unpack_matrix-message n (2 * n + 3) bytes rest some_row fits len (omega arith)
        (omega (arith, len, length-append bytes rest))
      ∙ ap (λ k. ret (pos 0, rows n (take k matrix))) same)

too_many_rows :
    (n bufsize : ℕ) (rest : List ℕ)
    → 17 ≤ n
    → n < 256
    → 2 * n ≤ bufsize
    → unpackf rest bufsize (codes "%*hhu") (count (2 * n) ∷ room 32 ∷ []) ≡ undefined
unfolding unpackf
too_many_rows n bufsize rest many_rows small h =
    round_many hhu (2 * n) 32 4 bufsize 0 [] [] rest [] (omega arith) (omega arith)
    ∙ past_the_end n bufsize rest _ many_rows h
  where
    past_the_end :
        (n bufsize : ℕ) (rest : List ℕ) (later : List ℕ → List Dest → ℕ → List (List ℕ) → Unpacked)
        → 17 ≤ n
        → 2 * n ≤ bufsize
        → unpack_bytes later (2 * n * 1) [] [] rest bufsize 0 [] 32 ≡ undefined
    past_the_end n bufsize rest later many_rows h =
        unfold unpack_bytes in
        rw (le→ltb bufsize (0 + 2 * n * 1) (omega arith), lt→ltb 32 (2 * n * 1) (omega arith))

-- A message that claims 17 rows or more, and has their bytes, makes the client write past the end of the matrix
-- in its result: the count is not checked against MAX_TEMP_THRESHOLDS.
pub unpack_matrix_overflow :
    (len n bufsize : ℕ) (bytes : List ℕ)
    → len < 256
    → 17 ≤ n
    → n < 256
    → 2 * n + 3 ≤ bufsize
    → bufsize ≤ length bytes + 3
    → unpack_matrix (len ∷ 0 ∷ n ∷ bytes) bufsize ≡ undefined
unfolding unpack_matrix unpack_matrix_body unpack_rows byte_at from_le
unpack_matrix_overflow len n bufsize bytes h many_rows small lo hi = rw (
  unpack_header len 0 bufsize (n ∷ bytes) h (omega arith) (omega arith) (omega arith),
  byte_read n (bufsize - 2) bytes small (omega arith) (omega arith),
  add-zero n,
  too_many_rows n (bufsize - 3) bytes many_rows small (omega arith),
)
