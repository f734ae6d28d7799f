-- ===== src/Request.antt =====
-- src/fanctl/request.c and `format` of src/fanctl/format.c: what the client makes of a response. What
-- `client_send_and_recv` gives, the length received and the buffer, is an argument.
pub mod Exchange
pub mod Exit
pub mod Convert
mod Tests
use amdgpu_fand.Base.{
  ℕ, zero, suc, ◌-◌, ◌*◌, ◌%◌, ◌^◌, List, [], ◌∷◌, Bool, true, false, not, ◌&&◌, ◌==◌, ltb,
  if◌then◌else◌, take, drop, length, same_string, ℤ, pos, negsuc, int_pattern, int_of, codes,
}
use amdgpu_fand.Fanctrl.{ulong_of_int}
use amdgpu_fand.Serialize.Outcome.{Outcome, ret, undefined, ◌>>=◌}
use amdgpu_fand.Serialize.Bytes.{le_bytes, from_le}
use amdgpu_fand.Serialize.Message.{
  ipc_rsp_ok, ipc_rsp_err, UnpackResult, unset, number, rows, unpack_speed, unpack_temp,
  unpack_matrix, unpack_exit_rsp,
}
use amdgpu_fand.Server.{ipc_req_speed, ipc_req_temp, ipc_req_matrix}

abbrev pub ipc_req_inval : ℕ
ipc_req_inval = 255

-- `ipc_request_map`.
unfoldable pub ipc_request_map : List (List ℕ × ℕ)
ipc_request_map =
    (codes "speed", ipc_req_speed)
    ∷ (codes "temp", ipc_req_temp)
    ∷ (codes "temperature", ipc_req_temp)
    ∷ (codes "matrix", ipc_req_matrix)
    ∷ []

-- The loop over the map.
unfoldable pub look_up : List ℕ → List (List ℕ × ℕ) → ℕ
look_up target [] = ipc_req_inval
look_up target ((name, code) ∷ later) =
    if same_string target name then code else look_up target later

-- The result, and the request stored.
unfoldable pub convert : List ℕ → ℤ × ℕ
convert target =
    let request = look_up target ipc_request_map in
    if request == ipc_req_inval then (negsuc 0, request) else (pos 0, request)

-- What the client prints.
pub data Shown : Type 0 where
  nothing invalid_response invalid_request : Shown
  error_text speed temp : ℤ → Shown
  curve : ℕ → List ℕ → Shown

-- The first four bytes of the result as an `int`.
unfoldable pub result_number : UnpackResult → Outcome ℤ
result_number unset = undefined
result_number (number v) = ret v
result_number (rows n bytes) =
    if ltb (length bytes) 3 then undefined else ret (int_of (from_le (n ∷ take 3 bytes)))

-- The first byte of the result and the rows that follow.
unfoldable pub result_rows : UnpackResult → Outcome (ℕ × List ℕ)
result_rows unset = undefined
result_rows (number v) =
    let bytes = le_bytes 4 (int_pattern v) in
    let n = int_pattern v % 256 in
    if ltb 1 n then undefined else ret (n, take (2 * n) (drop 1 bytes))
result_rows (rows n bytes) =
    if ltb (length bytes) (2 * n) then undefined else ret (n, take (2 * n) bytes)

-- `format`: its result, and what it prints.
unfoldable pub format_result : UnpackResult → ℕ → ℕ → Outcome (ℤ × Shown)
format_result result req rsp =
    if rsp == ipc_rsp_err
    then (result_number result >>= λ v. ret (negsuc 0, error_text v))
    else if not (rsp == ipc_rsp_ok)
    then ret (negsuc 0, invalid_response)
    else if req == ipc_req_speed
    then (result_number result >>= λ v. ret (pos 0, speed v))
    else if req == ipc_req_temp
    then (result_number result >>= λ v. ret (pos 0, temp v))
    else if req == ipc_req_matrix
    then (result_rows result >>= λ r. ret (pos 0, curve r.0 r.1))
    else ret (negsuc 0, invalid_request)

-- The conversion of a result to `ipc_response`, an unsigned char.
unfoldable pub byte_of : ℤ → ℕ
byte_of (pos n) = n % 256
byte_of (negsuc n) = 255 - n % 256

-- `if(format(...)) return -1; return 0;`
unfoldable pub get_status : ℤ → ℤ
get_status (pos zero) = pos 0
get_status (pos (suc n)) = negsuc 0
get_status (negsuc n) = negsuc 0

unfoldable pub finish_get : ℕ → ℤ × UnpackResult → Outcome (ℤ × Shown)
finish_get request (status, result) =
    format_result result request (byte_of status) >>= λ r. ret (get_status r.0, r.1)

unfoldable pub unpack_response : List ℕ → ℕ → ℕ → Outcome (ℤ × Shown)
unpack_response buffer len request =
    if request == ipc_req_speed
    then unpack_speed buffer len >>= finish_get request
    else if request == ipc_req_temp
    then unpack_temp buffer len >>= finish_get request
    else if request == ipc_req_matrix
    then unpack_matrix buffer len >>= finish_get request
    else ret (negsuc 0, invalid_request)

-- `request_process_get`.
unfoldable pub process_get : ℤ → List ℕ → ℕ → Outcome (ℤ × Shown)
process_get (negsuc n) buffer request = ret (negsuc n, nothing)
process_get (pos len) buffer request = unpack_response buffer len request

unfoldable pub finish_exit : ℤ × UnpackResult → Outcome (ℤ × Shown)
finish_exit (status, result) =
    if byte_of status == 0
    then ret (pos 0, nothing)
    else (result_number result >>= λ v. ret (negsuc 0, error_text v))

-- `request_process_exit`; a negative length is converted to `size_t`.
unfoldable pub process_exit : ℤ → List ℕ → Outcome (ℤ × Shown)
process_exit rsplen buffer = unpack_exit_rsp buffer (ulong_of_int rsplen) >>= finish_exit
