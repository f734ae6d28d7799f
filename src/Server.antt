-- ===== src/Server.antt =====
-- src/fand/server.c: which requests are served and what is answered. What the system calls give is the record
-- `Session`; the answers of the sensor and of the PWM file go through the fan control.
pub mod Exit
pub mod Responses
pub mod Socket
pub mod Setup
use Prim.Native.Nat.{bit_or}
use amdgpu_fand.Base.{
  ℕ, zero, suc, List, [], ◌∷◌, Bool, true, false, not, ◌||◌, ◌==◌, ltb, if◌then◌else◌, take, Option,
  none, some, ℤ, pos, negsuc, eagain, eacces, einval,
}
use amdgpu_fand.Fanctrl.{FandConfig, get_temp, get_speed}
use amdgpu_fand.Serialize.Outcome.{Outcome, ret, undefined, ◌>>=◌}
use amdgpu_fand.Serialize.Pack.{Packed}
use amdgpu_fand.Serialize.Message.{pack_error, pack_speed, pack_temp, pack_matrix, pack_exit_rsp}

abbrev pub ipc_max_msg_length : ℕ
ipc_max_msg_length = 48

-- FAND_SERVER_EXIT
abbrev pub fand_server_exit : ℕ
fand_server_exit = 3

abbrev pub ipc_req_exit : ℕ
ipc_req_exit = 1

abbrev pub ipc_req_unprivileged : ℕ
ipc_req_unprivileged = 32

abbrev pub ipc_req_speed : ℕ
ipc_req_speed = 33

abbrev pub ipc_req_temp : ℕ
ipc_req_temp = 34

abbrev pub ipc_req_matrix : ℕ
ipc_req_matrix = 35

unfoldable pub ipc_valid_requests : List ℕ
ipc_valid_requests = ipc_req_exit ∷ ipc_req_speed ∷ ipc_req_temp ∷ ipc_req_matrix ∷ []

-- What getsockopt answers: `errno`, or the user id of the client.
pub data Peer : Type 0 where
  no_credentials : ℕ → Peer
  user : ℕ → Peer

-- What the system gives to a call: the result of recv and the byte received, the client, the answers of the
-- sensor and of the PWM file, the bytes on the stack that become the buffer, and the result of send.
pub record Session : Type 0 where
  pub nbytes : ℤ
  pub request : ℕ
  pub peer : Peer
  pub sensor : ℤ
  pub pwm : ℤ
  pub stack : List ℕ
  pub send : List ℕ → ℤ

-- The loop over `ipc_valid_requests`.
unfoldable pub is_among : ℕ → List ℕ → Bool
is_among request [] = false
is_among request (valid ∷ later) = request == valid || is_among request later

unfoldable pub check_peer : Peer → ℕ
check_peer (no_credentials errno) = errno
check_peer (user uid) = if uid == 0 then 0 else eacces

unfoldable pub validate_request : Peer → ℕ → ℕ
validate_request peer request =
    if not (is_among request ipc_valid_requests)
    then einval
    else if ltb request ipc_req_unprivileged
    then check_peer peer
    else 0

unfoldable pub defined : Option ℤ → Outcome ℤ
defined none = undefined
defined (some v) = ret v

unfoldable pub response_value : Session → ℕ → Outcome ℤ
response_value s request =
    if request == ipc_req_speed
    then defined (get_speed s.pwm)
    else if request == ipc_req_temp
    then ret (get_temp s.sensor)
    else ret (negsuc 0)

unfoldable pub pack_value : List ℕ → ℕ → ℕ → ℤ → Packed
pack_value buffer bufsize request (negsuc n) = pack_error buffer bufsize (pos eagain)
pack_value buffer bufsize request (pos v) =
    if request == ipc_req_speed
    then pack_speed buffer bufsize (pos v)
    else pack_temp buffer bufsize (pos v)

unfoldable pub pack_result : Session → List ℕ → ℕ → ℕ → Packed
pack_result s buffer bufsize request =
    response_value s request >>= pack_value buffer bufsize request

-- The switch on an accepted request: the exit code and the packed response.
unfoldable pub pack_accepted : Session → FandConfig → ℕ → ℕ × Packed
pack_accepted s config request =
    if request == ipc_req_exit
    then (fand_server_exit, pack_exit_rsp s.stack ipc_max_msg_length)
    else if request == ipc_req_speed || request == ipc_req_temp
    then (0, pack_result s s.stack ipc_max_msg_length request)
    else if request == ipc_req_matrix
    then (0, pack_matrix s.stack ipc_max_msg_length config.matrix config.matrix_rows)
    else (0, pack_error s.stack ipc_max_msg_length (pos einval))

-- The branch on the status of the validation.
unfoldable pub pack_by_status : Session → FandConfig → ℕ → ℕ × Packed
pack_by_status s config zero = pack_accepted s config s.request
pack_by_status s config (suc e) = (0, pack_error s.stack ipc_max_msg_length (pos (suc e)))

unfoldable pub pack_response : Session → FandConfig → ℕ × Packed
pack_response s config = pack_by_status s config (validate_request s.peer s.request)

-- What a call returns, and the bytes given to send.
pub record Served : Type 0 where
  pub status : ℕ
  pub sent : Option (List ℕ)

unfoldable pub send_status : ℕ → ℤ → ℕ
send_status exitcode (pos n) = exitcode
send_status exitcode (negsuc zero) = bit_or exitcode 1
send_status exitcode (negsuc (suc n)) = exitcode

unfoldable pub send_response : (List ℕ → ℤ) → ℕ → ℤ × List ℕ → Served
send_response send exitcode (negsuc n, buffer) = record { status = bit_or exitcode 1; sent = none }
send_response send exitcode (pos rsplen, buffer) = record {
  status = send_status exitcode (send (take rsplen buffer));
  sent = some (take rsplen buffer);
}

unfoldable pub respond : Session → ℕ × Packed → Outcome Served
respond s (exitcode, packed) = packed >>= λ r. ret (send_response s.send exitcode r)

-- The switch on the result of recv.
unfoldable pub serve : Session → FandConfig → ℤ → Outcome Served
serve s config (negsuc zero) = ret (record { status = 1; sent = none })
serve s config (pos zero) = ret (record { status = 1; sent = none })
serve s config (pos (suc n)) = respond s (pack_response s config)
serve s config (negsuc (suc n)) = respond s (pack_response s config)

-- `server_recv_and_respond`.
unfoldable pub recv_and_respond : Session → FandConfig → Outcome Served
recv_and_respond s config = serve s config s.nbytes
