-- ===== src/Server/Responses.antt =====
-- What src/fand/server.c sends for the requests that only read.
use amdgpu_fand.Base.{
  ℕ, ◌+◌, ◌*◌, ◌/◌, ◌≤◌, ◌≡◌, ap, ◌∙◌, arith, List, ◌++◌, take, drop, length, take-append, some, ℤ,
  pos, negsuc, int_pattern, eagain,
}
use amdgpu_fand.Fanctrl.{FandConfig, get_temp, get_speed}
use amdgpu_fand.Fanctrl.Pwm.{get_speed-exact}
use amdgpu_fand.Serialize.Outcome.{ret}
use amdgpu_fand.Serialize.Bytes.{length-le_bytes}
use amdgpu_fand.Serialize.Message.Numbers.{
  number_message, pack_speed_bytes, pack_temp_bytes, pack_error_bytes,
}
use amdgpu_fand.Serialize.Message.Matrices.{pack_matrix_bytes, matrix_message}
use amdgpu_fand.Server.{
  Session, ipc_req_speed, ipc_req_temp, ipc_req_matrix, is_among, ipc_valid_requests,
  validate_request, defined, response_value, pack_value, pack_result, pack_accepted, pack_by_status,
  pack_response, send_status, send_response, respond, serve, recv_and_respond,
}

-- A request of one byte arrived, the buffer has its 48 bytes, and the devices answer in their ranges.
pub record IsSession (s : Session) : Type 0 where
  pub arrived : s.nbytes ≡ pos 1
  pub stack_room : length s.stack ≡ 48

-- The server sends `bytes`.
abbrev pub Sends : Session → FandConfig → ℕ → List ℕ → Type 0
Sends s config code bytes =
    recv_and_respond s config
    ≡ ret (record { status = send_status code (s.send bytes); sent = some bytes })

served_by :
    (s : Session) (config : FandConfig)
    → IsSession s
    → recv_and_respond s config ≡ respond s (pack_response s config)
served_by s config ok = unfold recv_and_respond serve in ap (λ n. serve s config n) ok.arrived

pub sends :
    (s : Session) (config : FandConfig) (code n : ℕ) (bytes later : List ℕ)
    → IsSession s
    → pack_response s config ≡ (code, ret (pos n, bytes ++ later))
    → length bytes ≡ n
    → Sends s config code bytes
unfolding respond send_response
sends s config code n bytes later ok e len =
    let same : take n (bytes ++ later) ≡ bytes = rw (← len) (take-append bytes later) in
    served_by s config ok
    ∙ ap (λ r. respond s r) e
    ∙ ap (λ b. ret (record { status = send_status code (s.send b); sent = some b })) same

pub length-number_message : (rsp : ℕ) (v : ℤ) → length (number_message rsp v) ≡ 6
length-number_message rsp v = omega (arith, length-le_bytes 4 (int_pattern v))

-- The responses that the server packs for the three requests of a client without privileges.
module _ (s : Session) (config : FandConfig) (ok : IsSession s) where
  pub packs_speed :
      (p : ℕ)
      → s.request ≡ ipc_req_speed
      → s.pwm ≡ pos p
      → p ≤ 255
      → pack_response s config
        ≡ (0, ret (pos 6, number_message 0 (pos (100 * p / 255)) ++ drop 6 s.stack))
  unfolding pack_response pack_by_status pack_accepted pack_result response_value defined pack_value
      validate_request is_among ipc_valid_requests
  packs_speed p req e h = rw (
    req,
    e,
    get_speed-exact p h,
    pack_speed_bytes s.stack 48 (pos (100 * p / 255)) (omega arith) (omega (arith, ok.stack_room)),
  )

  pub packs_temp :
      (m : ℕ)
      → s.request ≡ ipc_req_temp
      → s.sensor ≡ pos m
      → pack_response s config
        ≡ (0, ret (pos 6, number_message 0 (pos (m / 1000)) ++ drop 6 s.stack))
  unfolding pack_response pack_by_status pack_accepted pack_result response_value pack_value
      validate_request is_among ipc_valid_requests get_temp
  packs_temp m req e = rw (
    req,
    e,
    pack_temp_bytes s.stack 48 (pos (m / 1000)) (omega arith) (omega (arith, ok.stack_room)),
  )

  pub packs_error_speed :
      (n : ℕ)
      → s.request ≡ ipc_req_speed
      → s.pwm ≡ negsuc n
      → pack_response s config ≡ (0, ret (pos 6, number_message 1 (pos eagain) ++ drop 6 s.stack))
  unfolding pack_response pack_by_status pack_accepted pack_result response_value defined pack_value
      validate_request is_among ipc_valid_requests get_speed
  packs_error_speed n req e = rw (
    req,
    e,
    pack_error_bytes s.stack 48 (pos eagain) (omega arith) (omega (arith, ok.stack_room)),
  )

  pub packs_error_temp :
      (n : ℕ)
      → s.request ≡ ipc_req_temp
      → s.sensor ≡ negsuc n
      → pack_response s config ≡ (0, ret (pos 6, number_message 1 (pos eagain) ++ drop 6 s.stack))
  unfolding pack_response pack_by_status pack_accepted pack_result response_value pack_value
      validate_request is_among ipc_valid_requests get_temp
  packs_error_temp n req e = rw (
    req,
    e,
    pack_error_bytes s.stack 48 (pos eagain) (omega arith) (omega (arith, ok.stack_room)),
  )

  pub packs_matrix :
      s.request ≡ ipc_req_matrix
      → 1 ≤ config.matrix_rows
      → config.matrix_rows ≤ 16
      → 2 * config.matrix_rows ≤ length config.matrix
      → pack_response s config ≡ (
        0,
        ret (
          pos (2 * config.matrix_rows + 3),
          matrix_message config.matrix_rows config.matrix
              ++ drop (2 * config.matrix_rows + 3) s.stack,
        ),
      )
  unfolding pack_response pack_by_status pack_accepted validate_request is_among ipc_valid_requests
  packs_matrix req some_row fits enough =
      let packed =
        pack_matrix_bytes s.stack config.matrix 48 config.matrix_rows some_row fits enough
          (omega arith) (omega (arith, ok.stack_room)) in
      rw (req, packed)
