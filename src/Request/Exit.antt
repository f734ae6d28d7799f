-- ===== src/Request/Exit.antt =====
-- The exit request from end to end.
use amdgpu_fand.Base.{
  ℕ, zero, suc, ◌^◌, ◌<◌, ◌≡◌, refl, arith, List, [], ◌∷◌, ◌++◌, drop, length, ℤ, pos, negsuc,
}
use amdgpu_fand.Fanctrl.{FandConfig, ulong_of_int}
use amdgpu_fand.Serialize.Outcome.{ret}
use amdgpu_fand.Serialize.Message.Numbers.{
  number_message, unpack_exit-error, unpack_exit-ok, pack_error_bytes, pack_exit_bytes,
}
use amdgpu_fand.Server.{
  Session, ipc_req_exit, is_among, ipc_valid_requests, check_peer, validate_request, pack_accepted,
  pack_by_status, pack_response,
}
use amdgpu_fand.Server.Responses.{IsSession, Sends, sends, length-number_message}
use amdgpu_fand.Request.{
  Shown, nothing, error_text, result_number, byte_of, finish_exit, process_exit,
}

-- The exit code of the server's child, by the status of the validation, and what the client shows.
abbrev pub exit_code : ℕ → ℕ
exit_code zero = 3
exit_code (suc e) = 0

abbrev pub exit_answer : ℕ → ℤ × Shown
exit_answer zero = (pos 0, nothing)
exit_answer (suc e) = (negsuc 0, error_text (pos (suc e)))

validate_exit :
    (s : Session) → s.request ≡ ipc_req_exit → validate_request s.peer s.request ≡ check_peer s.peer
unfolding validate_request is_among ipc_valid_requests
validate_exit s req = rw req refl

pub record IsExitExchange (s : Session) (config : FandConfig) (rest : List ℕ) (status : ℕ)
    : Type 0 where
  pub bytes : List ℕ
  pub sent : Sends s config (exit_code status) bytes
  pub read : process_exit (pos (length bytes)) (bytes ++ rest) ≡ ret (exit_answer status)

exit_ok : (rest : List ℕ) → process_exit (pos 2) (2 ∷ 0 ∷ rest) ≡ ret (pos 0, nothing)
unfolding process_exit finish_exit byte_of ulong_of_int
exit_ok rest = rw (unpack_exit-ok 2 rest (omega arith) (omega arith))

exit_error :
    (v : ℕ) (rest : List ℕ)
    → v < 2 ^ 31
    → process_exit (pos 6) (number_message 1 (pos v) ++ rest) ≡ ret (negsuc 0, error_text (pos v))
unfolding process_exit finish_exit byte_of ulong_of_int result_number
exit_error v rest h = rw (unpack_exit-error 6 (pos v) rest h (omega arith) (omega arith))

-- The super user's exit request is answered by two bytes.
pub exit-Sends :
    (s : Session) (config : FandConfig)
    → IsSession s
    → s.request ≡ ipc_req_exit
    → check_peer s.peer ≡ 0
    → Sends s config 3 (2 ∷ 0 ∷ [])
exit-Sends s config ok req e =
    let packed = pack_exit_bytes s.stack 48 (omega arith) (omega (arith, ok.stack_room)) in
    let response : pack_response s config ≡ (3, ret (pos 2, 2 ∷ 0 ∷ drop 2 s.stack)) =
      unfold pack_response pack_by_status pack_accepted in
      rw (validate_exit s req, e, req, packed) in
    sends s config 3 2 (2 ∷ 0 ∷ []) (drop 2 s.stack) ok response refl

-- An exit request that reaches the server is answered by its check of the client: the super user is told
-- of success and the server's child returns the status on which the daemon exits; any other client is
-- shown the error of the check, and the child returns another status.
pub process_exit-recv_and_respond :
    (s : Session) (config : FandConfig) (rest : List ℕ) (status : ℕ)
    → IsSession s
    → s.request ≡ ipc_req_exit
    → check_peer s.peer ≡ status
    → status < 2 ^ 31
    → IsExitExchange s config rest status
unfolding pack_response pack_by_status pack_accepted
process_exit-recv_and_respond s config rest zero ok req e h = record {
  bytes = 2 ∷ 0 ∷ [];
  sent = exit-Sends s config ok req e;
  read = exit_ok rest;
}
process_exit-recv_and_respond s config rest (suc k) ok req e h =
    let len = length-number_message 1 (pos (suc k)) in
    record {
      bytes = number_message 1 (pos (suc k));
      sent =
          sends s config 0 6 (number_message 1 (pos (suc k))) (drop 6 s.stack) ok
            (rw (
              validate_exit s req,
              e,
              pack_error_bytes s.stack 48 (pos (suc k)) (omega arith)
                  (omega (arith, ok.stack_room)),
            ))
            len;
      read = rw len (exit_error (suc k) rest h);
    }
