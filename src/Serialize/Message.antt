-- ===== src/Serialize/Message.antt =====
-- The messages of src/common/serialize.c: the daemon's responses and the client's reading of them. A response
-- is a byte with its length, a byte with its kind, and a number or the matrix.
pub mod Numbers
pub mod Matrices
use amdgpu_fand.Base.{
  ℕ, ◌+◌, ◌-◌, ◌*◌, ◌%◌, ◌^◌, List, [], ◌∷◌, Bool, true, false, not, ◌==◌, if◌then◌else◌, drop,
  get_or, ℤ, pos, negsuc, ◌+ℤ◌, int_pattern, int_of, codes,
}
use amdgpu_fand.Serialize.Outcome.{Outcome, ret, ◌>>=◌}
use amdgpu_fand.Serialize.Bytes.{from_le}
use amdgpu_fand.Serialize.Pack.{val, ptr, Packed, packf}
use amdgpu_fand.Serialize.Unpack.{count, room, unpackf}

-- ipc_rsp_ok and ipc_rsp_err of src/common/ipc.h.
abbrev pub ipc_rsp_ok : ℕ
ipc_rsp_ok = 0

abbrev pub ipc_rsp_err : ℕ
ipc_rsp_err = 1

unfoldable pub pack_error : List ℕ → ℕ → ℤ → Packed
pack_error buffer bufsize error =
    packf buffer bufsize (codes "%hhu%hhu%d")
      (val 6 ∷ val ipc_rsp_err ∷ val (int_pattern error) ∷ [])

unfoldable pub pack_speed : List ℕ → ℕ → ℤ → Packed
pack_speed buffer bufsize speed =
    packf buffer bufsize (codes "%hhu%hhu%d")
      (val 6 ∷ val ipc_rsp_ok ∷ val (int_pattern speed) ∷ [])

unfoldable pub pack_temp : List ℕ → ℕ → ℤ → Packed
pack_temp buffer bufsize temp =
    packf buffer bufsize (codes "%hhu%hhu%d") (val 6 ∷ val ipc_rsp_ok ∷ val (int_pattern temp) ∷ [])

unfoldable pub pack_matrix : List ℕ → ℕ → List ℕ → ℕ → Packed
pack_matrix buffer bufsize matrix nrows = packf buffer bufsize (codes "%hhu%hhu%hhu%*hhu") (
    val ((1 + (nrows * 2 + 2)) % 256)
    ∷ val ipc_rsp_ok
    ∷ val nrows
    ∷ val (2 * nrows)
    ∷ ptr matrix
    ∷ [])

unfoldable pub pack_exit_rsp : List ℕ → ℕ → Packed
pack_exit_rsp buffer bufsize = packf buffer bufsize (codes "%hhu%hhu") (val 2 ∷ val ipc_rsp_ok ∷ [])

-- `union unpack_result`, by what was stored in it last: nothing, a number (`error`, `temp` and `speed` are one
-- place), or the matrix with its count of rows.
pub data UnpackResult : Type 0 where
  unset : UnpackResult
  number : ℤ → UnpackResult
  rows : ℕ → List ℕ → UnpackResult

-- What a call returns: its result and what it stored.
abbrev pub Reading : Type 0
Reading = Outcome (ℤ × UnpackResult)

unfoldable pub stored_number : List (List ℕ) → UnpackResult
stored_number [] = unset
stored_number (bytes ∷ later) = number (int_of (from_le bytes))

unfoldable pub stored_rows : ℕ → List (List ℕ) → UnpackResult
stored_rows nrows [] = rows nrows []
stored_rows nrows (bytes ∷ later) = rows nrows bytes

-- The byte stored behind the pointer of index `i`.
unfoldable pub byte_at : List (List ℕ) → ℕ → ℕ
byte_at out i = from_le (get_or out i [])

unfoldable pub equals : ℤ → ℕ → Bool
equals (pos n) len = n == len
equals (negsuc n) len = false

-- The final test of the length.
unfoldable pub finish : ℤ → ℕ → ℕ → UnpackResult → Reading
finish rsplen len rsp result =
    if equals rsplen len then ret (pos rsp, result) else ret (negsuc 0, result)

-- The number behind the two header bytes.
unfoldable pub read_number : List ℕ → ℕ → ℕ → Outcome (ℤ × List (List ℕ))
read_number buffer bufsize rsplen =
    unpackf (drop rsplen buffer) (bufsize - rsplen) (codes "%d") (room 4 ∷ []) >>= λ r.
    ret (pos rsplen +ℤ r.0, r.1)

unfoldable pub unpack_int_body : List ℕ → ℕ → ℤ × List (List ℕ) → Reading
unpack_int_body buffer bufsize (negsuc n, head) = ret (negsuc n, unset)
unpack_int_body buffer bufsize (pos rsplen, head) = read_number buffer bufsize rsplen >>= λ r.
    finish r.0 (byte_at head 0) (byte_at head 1) (stored_number r.1)

-- Both branches on the kind store to the same place.
unfoldable pub unpack_int : List ℕ → ℕ → Reading
unpack_int buffer bufsize =
    unpackf buffer bufsize (codes "%hhu%hhu") (room 1 ∷ room 1 ∷ [])
    >>= unpack_int_body buffer bufsize

unfoldable pub unpack_speed : List ℕ → ℕ → Reading
unpack_speed buffer bufsize = unpack_int buffer bufsize

unfoldable pub unpack_temp : List ℕ → ℕ → Reading
unpack_temp buffer bufsize = unpack_int buffer bufsize

-- A negative sum of lengths is returned before the final test.
unfoldable pub finish_checked : ℤ → ℕ → ℕ → UnpackResult → Reading
finish_checked (negsuc n) len rsp result = ret (negsuc n, result)
finish_checked (pos n) len rsp result = finish (pos n) len rsp result

-- The rows behind their count. `matrix[1]` has 32 bytes.
unfoldable pub unpack_rows : List ℕ → ℕ → ℕ → ℕ → ℤ × List (List ℕ) → Reading
unpack_rows buffer bufsize len rsp (negsuc n, out) = ret (negsuc n, unset)
unpack_rows buffer bufsize len rsp (pos rsplen, out) =
    unpackf (drop rsplen buffer) (bufsize - rsplen) (codes "%*hhu")
      (count (2 * byte_at out 0) ∷ room 32 ∷ [])
    >>= λ r. finish_checked (pos rsplen +ℤ r.0) len rsp (stored_rows (byte_at out 0) r.1)

unfoldable pub unpack_matrix_body : List ℕ → ℕ → ℤ × List (List ℕ) → Reading
unpack_matrix_body buffer bufsize (negsuc n, head) = ret (negsuc n, unset)
unpack_matrix_body buffer bufsize (pos rsplen, head) =
    if byte_at head 1 == 0
    then (unpackf (drop rsplen buffer) (bufsize - rsplen) (codes "%hhu") (room 1 ∷ []) >>= λ r.
        unpack_rows buffer bufsize (byte_at head 0) (byte_at head 1) (pos rsplen +ℤ r.0, r.1))
    else (read_number buffer bufsize rsplen >>= λ r.
        finish_checked r.0 (byte_at head 0) (byte_at head 1) (stored_number r.1))

unfoldable pub unpack_matrix : List ℕ → ℕ → Reading
unpack_matrix buffer bufsize =
    unpackf buffer bufsize (codes "%hhu%hhu") (room 1 ∷ room 1 ∷ [])
    >>= unpack_matrix_body buffer bufsize

unfoldable pub unpack_exit_body : List ℕ → ℕ → ℤ × List (List ℕ) → Reading
unpack_exit_body buffer bufsize (negsuc n, head) = ret (negsuc n, unset)
unpack_exit_body buffer bufsize (pos rsplen, head) =
    if byte_at head 1 == 0
    then finish (pos rsplen) (byte_at head 0) (byte_at head 1) unset
    else (read_number buffer bufsize rsplen >>= λ r.
        finish r.0 (byte_at head 0) (byte_at head 1) (stored_number r.1))

unfoldable pub unpack_exit_rsp : List ℕ → ℕ → Reading
unpack_exit_rsp buffer bufsize =
    unpackf buffer bufsize (codes "%hhu%hhu") (room 1 ∷ room 1 ∷ [])
    >>= unpack_exit_body buffer bufsize
