-- ===== src/Request/Convert.antt =====
-- `request_convert` of src/fanctl/request.c.
use amdgpu_fand.Base.{ℕ, ◌≡◌, arith, List, pos, ◌⊎◌}
use amdgpu_fand.Server.{
  Peer, validate_request, is_among, ipc_valid_requests, ipc_req_speed, ipc_req_temp, ipc_req_matrix,
}
use amdgpu_fand.Request.{ipc_request_map, look_up, convert}

-- A target that is accepted is one of the three requests that only read.
look_up_cases :
    (target : List ℕ)
    → (look_up target ipc_request_map ≡ 255)
      ⊎ (look_up target ipc_request_map ≡ ipc_req_speed)
      ⊎ (look_up target ipc_request_map ≡ ipc_req_temp)
      ⊎ (look_up target ipc_request_map ≡ ipc_req_matrix)
unfolding look_up ipc_request_map
look_up_cases target = ground arith

-- Every target that the client accepts becomes a request that the server serves for any client.
pub validate_request-convert :
    (target : List ℕ) (request : ℕ) (peer : Peer)
    → convert target ≡ (pos 0, request)
    → validate_request peer request ≡ 0
unfolding convert validate_request is_among ipc_valid_requests
validate_request-convert target request peer e = ground (arith, look_up_cases target)
