-- ===== src/Request/Exchange.antt =====
-- A request from end to end: src/fand/server.c answers it, and src/fanctl/request.c reads the answer.
use amdgpu_fand.Base.{
  ℕ, ◌+◌, ◌*◌, ◌/◌, ◌≤◌, ◌≡◌, refl, ap, ◌∙◌, arith, List, ◌++◌, le→ltb, take, drop, length,
  take_all, length-append, length-take, ℤ, pos, negsuc, IsInt, eagain,
}
use amdgpu_fand.Fanctrl.{FandConfig}
use amdgpu_fand.Serialize.Outcome.{ret}
use amdgpu_fand.Serialize.Message.{rows, unpack_speed, unpack_temp}
use amdgpu_fand.Serialize.Message.Numbers.{number_message, unpack_int-message}
use amdgpu_fand.Serialize.Message.Matrices.{unpack_matrix-message, matrix_message}
use amdgpu_fand.Server.{Session, ipc_req_speed, ipc_req_temp, ipc_req_matrix, pack_response}
use amdgpu_fand.Request.{
  Shown, error_text, speed, temp, curve, result_number, result_rows, format_result, byte_of,
  get_status, finish_get, unpack_response, process_get,
}
use amdgpu_fand.Server.Responses.{
  IsSession, Sends, sends, length-number_message, packs_speed, packs_temp, packs_error_speed,
  packs_error_temp, packs_matrix,
}

-- The client reads a number.
get_speed_number :
    (v : ℤ) (rest : List ℕ)
    → IsInt v
    → process_get (pos 6) (number_message 0 v ++ rest) ipc_req_speed ≡ ret (pos 0, speed v)
unfolding process_get unpack_response unpack_speed finish_get format_result byte_of get_status
    result_number
get_speed_number v rest int =
    rw (unpack_int-message 0 6 v rest (omega arith) int (omega arith) (omega arith))

get_temp_number :
    (v : ℤ) (rest : List ℕ)
    → IsInt v
    → process_get (pos 6) (number_message 0 v ++ rest) ipc_req_temp ≡ ret (pos 0, temp v)
unfolding process_get unpack_response unpack_temp finish_get format_result byte_of get_status
    result_number
get_temp_number v rest int =
    rw (unpack_int-message 0 6 v rest (omega arith) int (omega arith) (omega arith))

get_error :
    (v : ℤ) (rest : List ℕ)
    → IsInt v
    → (process_get (pos 6) (number_message 1 v ++ rest) ipc_req_speed
        ≡ ret (negsuc 0, error_text v))
      × (process_get (pos 6) (number_message 1 v ++ rest) ipc_req_temp
          ≡ ret (negsuc 0, error_text v))
unfolding process_get unpack_response unpack_speed unpack_temp finish_get format_result byte_of
    get_status result_number
get_error v rest int =
    let e = unpack_int-message 1 6 v rest (omega arith) int (omega arith) (omega arith) in
    (rw e, rw e)

-- The requests that only read.
pub data GetRequest : Type 0 where
  ask_speed ask_temp ask_matrix : GetRequest

abbrev pub request_code : GetRequest → ℕ
request_code ask_speed = ipc_req_speed
request_code ask_temp = ipc_req_temp
request_code ask_matrix = ipc_req_matrix

-- What the user is to see: a value of the device, or the error EAGAIN where the device cannot be read.
abbrev pub device_answer : (ℕ → Shown) → ℤ → ℤ × Shown
device_answer show (pos v) = (pos 0, show v)
device_answer show (negsuc n) = (negsuc 0, error_text (pos eagain))

abbrev pub answer : Session → FandConfig → GetRequest → ℤ × Shown
answer s config ask_speed = device_answer (λ p. speed (pos (100 * p / 255))) s.pwm
answer s config ask_temp = device_answer (λ m. temp (pos (m / 1000))) s.sensor
answer s config ask_matrix =
    (pos 0, curve config.matrix_rows (take (2 * config.matrix_rows) config.matrix))

-- The PWM file holds at most 255, the sensor gives an `int`.
abbrev pub IsPwm : ℤ → Type 0
IsPwm (pos p) = p ≤ 255
IsPwm (negsuc n) = Unit {0}

-- The rows of the configuration are at most 16, and its array holds them.
pub record HasRows (config : FandConfig) : Type 0 where
  pub some_row : 1 ≤ config.matrix_rows
  pub room : config.matrix_rows ≤ 16
  pub stored : 2 * config.matrix_rows ≤ length config.matrix

-- The server sends a message that the client reads, whatever stands behind it in the client's buffer.
pub record IsExchange (s : Session) (config : FandConfig) (rest : List ℕ) (request : ℕ)
    (shown : ℤ × Shown) : Type 0 where
  pub bytes : List ℕ
  pub sent : Sends s config 0 bytes
  pub fits : length bytes ≤ 48
  pub read : process_get (pos (length bytes)) (bytes ++ rest) request ≡ ret shown

number-IsExchange :
    (s : Session) (config : FandConfig) (rest : List ℕ) (rsp request : ℕ) (v : ℤ)
    (shown : ℤ × Shown)
    → IsSession s
    → pack_response s config ≡ (0, ret (pos 6, number_message rsp v ++ drop 6 s.stack))
    → process_get (pos 6) (number_message rsp v ++ rest) request ≡ ret shown
    → IsExchange s config rest request shown
number-IsExchange s config rest rsp request v shown ok packed read =
    let len = length-number_message rsp v in
    record {
      bytes = number_message rsp v;
      sent = sends s config 0 6 (number_message rsp v) (drop 6 s.stack) ok packed len;
      fits = omega (arith, len);
      read = rw len read;
    }

speed-IsExchange :
    (s : Session) (config : FandConfig) (rest : List ℕ) (pwm : ℤ)
    → IsSession s
    → s.pwm ≡ pwm
    → IsPwm pwm
    → s.request ≡ ipc_req_speed
    → IsExchange s config rest ipc_req_speed (device_answer (λ p. speed (pos (100 * p / 255))) pwm)
speed-IsExchange s config rest (pos p) ok e h req =
    number-IsExchange s config rest 0 ipc_req_speed (pos (100 * p / 255)) _ ok
      (packs_speed s config ok p req e h)
      (get_speed_number (pos (100 * p / 255)) rest (omega arith))
speed-IsExchange s config rest (negsuc n) ok e h req =
    number-IsExchange s config rest 1 ipc_req_speed (pos eagain) _ ok
      (packs_error_speed s config ok n req e) (get_error (pos eagain) rest (omega arith)).0

temp-IsExchange :
    (s : Session) (config : FandConfig) (rest : List ℕ) (sensor : ℤ)
    → IsSession s
    → s.sensor ≡ sensor
    → IsInt sensor
    → s.request ≡ ipc_req_temp
    → IsExchange s config rest ipc_req_temp (device_answer (λ m. temp (pos (m / 1000))) sensor)
temp-IsExchange s config rest (pos m) ok e h req =
    number-IsExchange s config rest 0 ipc_req_temp (pos (m / 1000)) _ ok
      (packs_temp s config ok m req e) (get_temp_number (pos (m / 1000)) rest (omega arith))
temp-IsExchange s config rest (negsuc n) ok e h req =
    number-IsExchange s config rest 1 ipc_req_temp (pos eagain) _ ok
      (packs_error_temp s config ok n req e) (get_error (pos eagain) rest (omega arith)).1

length-matrix_message :
    (n : ℕ) (matrix : List ℕ) → 2 * n ≤ length matrix → length (matrix_message n matrix) ≡ 2 * n + 3
length-matrix_message n matrix h = omega (arith, length-take (2 * n * 1) matrix)

get_matrix :
    (n : ℕ) (matrix rest : List ℕ)
    → 1 ≤ n
    → n ≤ 16
    → 2 * n ≤ length matrix
    → process_get (pos (2 * n + 3)) (matrix_message n matrix ++ rest) ipc_req_matrix
      ≡ ret (pos 0, curve n (take (2 * n) matrix))
unfolding process_get unpack_response
get_matrix n matrix rest lo hi enough =
    let bytes = take (2 * n * 1) matrix in
    let len : length bytes ≡ 2 * n * 1 = omega (arith, length-take (2 * n * 1) matrix) in
    let unpacked =
      unpack_matrix-message n (2 * n + 3) bytes rest lo hi len (omega arith)
        (omega (arith, len, length-append bytes rest)) in
    rw unpacked (rows_shown n bytes (omega (arith, len)))
    ∙ ap (λ k. ret (pos 0, curve n (take k matrix))) (same n)
  where
    same : (n : ℕ) → 2 * n * 1 ≡ 2 * n
    same n = omega arith

    rows_shown :
        (n : ℕ) (bytes : List ℕ)
        → length bytes ≡ 2 * n
        → finish_get ipc_req_matrix (pos 0, rows n bytes) ≡ ret (pos 0, curve n bytes)
    rows_shown n bytes len =
        unfold finish_get format_result byte_of get_status result_rows in
        rw (le→ltb (length bytes) (2 * n) (omega (arith, len)), take_all bytes (2 * n) len)

matrix-IsExchange :
    (s : Session) (config : FandConfig) (rest : List ℕ)
    → IsSession s
    → HasRows config
    → s.request ≡ ipc_req_matrix
    → IsExchange s config rest ipc_req_matrix (answer s config ask_matrix)
matrix-IsExchange s config rest ok h req =
    let n = config.matrix_rows in
    let bytes = matrix_message n config.matrix in
    let len = length-matrix_message n config.matrix h.stored in
    record {
      bytes = bytes;
      sent =
          sends s config 0 (2 * n + 3) bytes (drop (2 * n + 3) s.stack) ok
            (packs_matrix s config ok req h.some_row h.room h.stored) len;
      fits = omega (arith, len, h.room);
      read = rw len (get_matrix n config.matrix rest h.some_row h.room h.stored);
    }

module _ (s : Session) (config : FandConfig) (rest : List ℕ) (ok : IsSession s) (pwm : IsPwm s.pwm)
    (sensor : IsInt s.sensor) (rows_fit : HasRows config) where
  -- A request for the speed, the temperature or the matrix that reaches the server, from any client, is
  -- answered by a message of at most 48 bytes that does not make the daemon exit, and the client shows from it the
  -- speed in percent, the temperature in degrees or the rows of the configuration; where the device
  -- cannot be read, it shows the error EAGAIN.
  pub process_get-recv_and_respond :
      (request : GetRequest)
      → s.request ≡ request_code request
      → IsExchange s config rest (request_code request) (answer s config request)
  process_get-recv_and_respond ask_speed req = speed-IsExchange s config rest s.pwm ok refl pwm req
  process_get-recv_and_respond ask_temp req =
      temp-IsExchange s config rest s.sensor ok refl sensor req
  process_get-recv_and_respond ask_matrix req = matrix-IsExchange s config rest ok rows_fit req
