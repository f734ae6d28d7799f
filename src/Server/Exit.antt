-- ===== src/Server/Exit.antt =====
-- Who can make the daemon exit through its socket.
use amdgpu_fand.Base.{
  ℕ, zero, suc, ◌≤◌, ◌≡◌, ◌≢◌, refl, arith, List, take, none, ℤ, pos, negsuc, ◌⊎◌, inl, inr,
}
use amdgpu_fand.Fanctrl.{FandConfig}
use amdgpu_fand.Serialize.Outcome.{ret, undefined, out_of_fuel}
use amdgpu_fand.Serialize.Pack.{Packed}
use amdgpu_fand.Server.{
  Session, Peer, no_credentials, user, Served, send_status, send_response, respond, serve,
  recv_and_respond, pack_response, pack_accepted, pack_by_status, validate_request, check_peer,
  is_among, ipc_valid_requests, ipc_req_exit, fand_server_exit,
}

-- Without the exit code of an exit request the status is 0 or 1.
send_status_le : (answer : ℤ) → send_status 0 answer ≤ 1
unfolding send_status
send_status_le (pos n) = omega arith
send_status_le (negsuc zero) = omega arith
send_status_le (negsuc (suc n)) = omega arith

send_response_le : (send : List ℕ → ℤ) (r : ℤ × List ℕ) → (send_response send 0 r).status ≤ 1
unfolding send_response
send_response_le send (pos n, buffer) = send_status_le (send (take n buffer))
send_response_le send (negsuc n, buffer) = omega arith

respond_le :
    (s : Session) (packed : Packed) (r : Served) → respond s (0, packed) ≡ ret r → r.status ≤ 1
unfolding respond
respond_le s (ret p) r e = rw (← ret_injective e) (send_response_le s.send p)
  where
    ret_injective : {a b : Served} → ret a ≡ ret b → a ≡ b
    ret_injective h = cc
respond_le s undefined r e = cc
respond_le s out_of_fuel r e = cc

-- The exit code of an exit request is given to the super user's exit request alone.
abbrev pub IsExit : Session → Type 0
IsExit s = (s.request ≡ ipc_req_exit) × (s.peer ≡ user 0)

-- An exit request of a client that the server's check lets pass.
abbrev pub IsAccepted : Session → Type 0
IsAccepted s = (s.request ≡ ipc_req_exit) × (check_peer s.peer ≡ 0)

pack_accepted_cases :
    (s : Session) (config : FandConfig) (request : ℕ)
    → ((pack_accepted s config request).0 ≡ 0) ⊎ (request ≡ ipc_req_exit)
unfolding pack_accepted
pack_accepted_cases s config request = ground arith

-- getsockopt sets `errno` where it fails.
abbrev pub SetsErrno : Peer → Type 0
SetsErrno peer = (errno : ℕ) → peer ≡ no_credentials errno → errno ≢ 0

check_peer_zero : (peer : Peer) → SetsErrno peer → check_peer peer ≡ 0 → peer ≡ user 0
unfolding check_peer
check_peer_zero (no_credentials errno) sets e = absurd (sets errno refl e)
check_peer_zero (user zero) sets e = refl
check_peer_zero (user (suc uid)) sets e = absurd (ground (arith, e))

validated :
    (peer : Peer) (request : ℕ)
    → validate_request peer request ≡ 0
    → request ≡ ipc_req_exit
    → check_peer peer ≡ 0
unfolding validate_request is_among ipc_valid_requests
validated peer request e exit = rw exit at e

by_status_cases :
    (s : Session) (config : FandConfig) (status : ℕ)
    → validate_request s.peer s.request ≡ status
    → ((pack_by_status s config status).0 ≡ 0) ⊎ IsAccepted s
unfolding pack_by_status
by_status_cases s config (suc n) e = inl refl
by_status_cases s config zero e = elim (pack_accepted_cases s config s.request) [
  | inl free ↦ inl free
  | inr exit ↦ inr (exit, validated s.peer s.request e exit)
]

pack_response_cases :
    (s : Session) (config : FandConfig) → ((pack_response s config).0 ≡ 0) ⊎ IsAccepted s
unfolding pack_response
pack_response_cases s config = by_status_cases s config (validate_request s.peer s.request) refl

respond_cases :
    (s : Session) (config : FandConfig) (r : Served)
    → respond s (pack_response s config) ≡ ret r
    → (r.status ≤ 1) ⊎ IsAccepted s
respond_cases s config r e = elim (pack_response_cases s config) [
  | inr exit ↦ inr exit
  | inl free ↦ inl (respond_le s (pack_response s config).1 r (rw free at e))
]

-- What is returned where recv gives no request.
unserved_le : (r : Served) → ret (record { status = 1; sent = none }) ≡ ret r → r.status ≤ 1
unserved_le r e = rw (← ret_injective e) (omega arith)
  where
    ret_injective : {a b : Served} → ret a ≡ ret b → a ≡ b
    ret_injective h = cc

serve_cases :
    (s : Session) (config : FandConfig) (nbytes : ℤ) (r : Served)
    → serve s config nbytes ≡ ret r
    → (r.status ≤ 1) ⊎ IsAccepted s
unfolding serve
serve_cases s config (negsuc zero) r e = inl (unserved_le r e)
serve_cases s config (pos zero) r e = inl (unserved_le r e)
serve_cases s config (pos (suc n)) r e = respond_cases s config r e
serve_cases s config (negsuc (suc n)) r e = respond_cases s config r e

-- A call that returns gives 0 or 1, unless an exit request passes the check.
pub recv_and_respond_cases :
    (s : Session) (config : FandConfig) (r : Served)
    → recv_and_respond s config ≡ ret r
    → (r.status ≤ 1) ⊎ IsAccepted s
unfolding recv_and_respond
recv_and_respond_cases s config r e = serve_cases s config s.nbytes r e

-- Where getsockopt sets `errno` when it fails, a call that returns the status on which the daemon exits
-- has received the exit request from a client whose user id is 0.
pub recv_and_respond-IsExit :
    (s : Session) (config : FandConfig) (r : Served)
    → SetsErrno s.peer
    → recv_and_respond s config ≡ ret r
    → r.status ≡ fand_server_exit
    → IsExit s
recv_and_respond-IsExit s config r sets e three = elim (recv_and_respond_cases s config r e) [
  | inl low ↦ absurd (omega (arith, low, three))
  | inr (exit, passed) ↦ (exit, check_peer_zero s.peer sets passed)
]
