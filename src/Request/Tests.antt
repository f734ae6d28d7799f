-- ===== src/Request/Tests.antt =====
-- Tests of the server and the client on concrete requests.
use amdgpu_fand.Base.{
  same_string, ℕ, ◌≡◌, refl, arith, List, [], ◌∷◌, false, replicate, some, ℤ, pos, negsuc, codes,
}
use amdgpu_fand.Fanctrl.{FandConfig}
use amdgpu_fand.Serialize.Outcome.{ret}
use amdgpu_fand.Server.{
  Session, no_credentials, user, Served, send_status, validate_request, check_peer, is_among,
  ipc_valid_requests, recv_and_respond,
}
use amdgpu_fand.Server.Exit.{IsExit, SetsErrno, recv_and_respond-IsExit}
use amdgpu_fand.Server.Responses.{IsSession}
use amdgpu_fand.Request.{ipc_request_map, look_up, convert}
use amdgpu_fand.Request.Exchange.{
  ask_speed, answer, HasRows, IsExchange, process_get-recv_and_respond,
}
use amdgpu_fand.Request.Exit.{IsExitExchange, exit-Sends, process_exit-recv_and_respond}
use amdgpu_fand.Request.Convert.{validate_request-convert}

abbrev all_sent : List ℕ → ℤ
all_sent bytes = pos 6

abbrev config : FandConfig
config = record {
  throttle = false;
  matrix_rows = 2;
  hysteresis = 3;
  interval = 2;
  matrix = 50 ∷ 20 ∷ 60 ∷ 50 ∷ replicate 28 0;
}

-- A user asks for the speed while the PWM file holds 128.
abbrev speed_session : Session
speed_session = record {
  nbytes = pos 1;
  request = 33;
  peer = user 1000;
  sensor = pos 45000;
  pwm = pos 128;
  stack = replicate 48 0;
  send = all_sent;
}

abbrev exit_session : Session
exit_session = record speed_session { request = 1 }

abbrev root_session : Session
root_session = record speed_session { request = 1; peer = user 0 }

speed_session-IsSession : IsSession speed_session
speed_session-IsSession = record { arrived = refl; stack_room = refl }

exit_session-IsSession : IsSession exit_session
exit_session-IsSession = record { arrived = refl; stack_room = refl }

root_session-IsSession : IsSession root_session
root_session-IsSession = record { arrived = refl; stack_room = refl }

config-HasRows : HasRows config
config-HasRows = record { some_row = omega arith; room = omega arith; stored = omega arith }

validate_table :
    (validate_request (user 1000) 33 ≡ 0)
    × (validate_request (user 1000) 1 ≡ 13)
    × (validate_request (user 0) 1 ≡ 0)
    × (validate_request (no_credentials 9) 1 ≡ 9)
    × (validate_request (user 0) 2 ≡ 22)
unfolding validate_request check_peer is_among ipc_valid_requests
validate_table = (refl, refl, refl, refl, refl)

convert_table :
    (convert (codes "temperature") ≡ (pos 0, 34))
    × (convert (codes "exit") ≡ (negsuc 0, 255))
    × (convert (codes "speeds") ≡ (negsuc 0, 255))
unfolding convert look_up ipc_request_map same_string
convert_table = (refl, refl, refl)

process_get-recv_and_respond_example :
    IsExchange speed_session config [] 33 (answer speed_session config ask_speed)
process_get-recv_and_respond_example =
    process_get-recv_and_respond speed_session config [] speed_session-IsSession (omega arith)
      (omega arith) config-HasRows ask_speed refl

process_exit-recv_and_respond_example : IsExitExchange exit_session config [] 13
process_exit-recv_and_respond_example =
    process_exit-recv_and_respond exit_session config [] 13 exit_session-IsSession refl
      (unfold check_peer in refl) (omega arith)

abbrev exit_served : Served
exit_served = record { status = 3; sent = some (2 ∷ 0 ∷ []) }

user-SetsErrno : SetsErrno (user 0)
user-SetsErrno errno e = cc

root_served : recv_and_respond root_session config ≡ ret exit_served
unfolding send_status
root_served = exit-Sends root_session config root_session-IsSession refl (unfold check_peer in refl)

recv_and_respond-IsExit_example : IsExit root_session
recv_and_respond-IsExit_example =
    recv_and_respond-IsExit root_session config exit_served user-SetsErrno root_served refl

target_is_speed : convert (codes "speed") ≡ (pos 0, 33)
unfolding convert look_up ipc_request_map same_string
target_is_speed = refl

validate_request-convert_example : validate_request (user 1000) 33 ≡ 0
validate_request-convert_example =
    validate_request-convert (codes "speed") 33 (user 1000) target_is_speed
