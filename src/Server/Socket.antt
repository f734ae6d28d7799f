-- ===== src/Server/Socket.antt =====
-- The socket of src/fand/server.c: `server_init`, `server_kill` and `server_poll`.
use amdgpu_fand.Base.{
  ℕ, zero, suc, List, Bool, true, false, ◌||◌, ◌==◌, if◌then◌else◌, replicate, ℤ, pos, negsuc,
}
use amdgpu_fand.Fanctrl.{FandConfig}
use amdgpu_fand.Serialize.Outcome.{Outcome, ret, ◌>>=◌}
use amdgpu_fand.Strutils.{strscpy}
use amdgpu_fand.Server.{Session, Served, recv_and_respond}
use amdgpu_fand.Watch.{failed}

-- The size of `sun_path`.
abbrev pub sun_path_size : ℕ
sun_path_size = 108

-- The answers of the system: of socket, bind, chmod, listen, unlink and close, and whether a file with the name of the
-- socket is there already.
pub record Setup : Type 0 where
  pub stale : Bool
  pub socket : ℤ
  pub bind : ℤ
  pub chmod : ℤ
  pub listen : ℤ
  pub unlink : ℤ
  pub close : ℤ

-- Whether `srvfd` is open, whether the socket's file is there, and the `fd` of the static `pollfd`.
pub record Socket : Type 0 where
  pub opened : Bool
  pub bound : Bool
  pub pollfd : ℤ

-- The label `closesock`: the result of close is not looked at; where it fails the descriptor is taken to stay open.
unfoldable pub closesock : Setup → Socket → ℤ × Socket
closesock s k = (negsuc 0, if failed s.close then k else record k { opened = false })

-- The label `rmsock`: the result of unlink is not looked at; where it fails the file stays.
unfoldable pub rmsock : Setup → Socket → ℤ × Socket
rmsock s k = closesock s (if failed s.unlink then k else record k { bound = false })

unfoldable pub listen_socket : Setup → Socket → ℤ × Socket
listen_socket s k =
    if failed s.chmod || failed s.listen
    then rmsock s k
    else (pos 0, record k { pollfd = s.socket })

-- bind makes the file where it succeeds.
unfoldable pub bind_socket : Setup → Socket → ℤ × List ℕ → ℤ × Socket
bind_socket s k (negsuc n, sun_path) = closesock s k
bind_socket s k (pos n, sun_path) =
    if failed s.bind then closesock s k else listen_socket s (record k { bound = true })

-- `server_init` on the path of the socket.
unfoldable pub server_init : Setup → List ℕ → ℤ → Outcome (ℤ × Socket)
server_init s path pollfd =
    if failed s.socket
    then ret (negsuc 0, record { opened = false; bound = s.stale; pollfd = pollfd })
    else (strscpy (replicate sun_path_size 0) path sun_path_size >>= λ r.
        ret (bind_socket s (record { opened = true; bound = s.stale; pollfd = pollfd }) r))

-- `server_kill`, by the results of close and unlink.
unfoldable pub server_kill : ℤ → ℤ → ℤ
server_kill closed unlinked = if failed closed || failed unlinked then negsuc 0 else pos 0

-- The answers of poll, with `errno` where it fails, of accept and of fork.
pub record Ready : Type 0 where
  pub poll : ℤ
  pub errno : ℕ
  pub accept : ℤ
  pub fork : ℤ

abbrev pub eintr : ℕ
eintr = 4

-- The parent returns a status; the child ends with an exit code.
pub data Polled : Type 0 where
  returned : ℤ → Polled
  exited : Served → Polled

unfoldable pub fork_child : Ready → Session → FandConfig → Outcome Polled
fork_child r s config = elim r.fork [
  | pos zero ↦ (recv_and_respond s config >>= λ served. ret (exited served))
  | pos (suc pid) ↦ ret (returned (pos 0))
  | negsuc n ↦ ret (returned (if failed (negsuc n) then negsuc 0 else pos 0))
]

-- `server_poll`
unfoldable pub server_poll : Ready → Session → FandConfig → Outcome Polled
server_poll r s config = elim r.poll [
  | negsuc zero ↦ ret (returned (if r.errno == eintr then pos 0 else negsuc 0))
  | pos zero ↦ ret (returned (pos 0))
  | other ↦ if failed r.accept then ret (returned (negsuc 0)) else fork_child r s config
]
