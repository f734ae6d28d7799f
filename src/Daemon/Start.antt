-- ===== src/Daemon/Start.antt =====
-- `daemon_init` of src/fand/daemon.c, in the process that goes on after its forks.
use amdgpu_fand.Base.{
  ℕ, List, Bool, ◌&&◌, ◌||◌, if◌then◌else◌, Option, none, some, ℤ, pos, negsuc, is_negative,
}
use amdgpu_fand.Fanctrl.{FandConfig, Fanctrl, configure}
use amdgpu_fand.Serialize.Outcome.{Outcome, ret, ◌>>=◌}
use amdgpu_fand.Server.Socket.{Setup, Socket, server_init}
use amdgpu_fand.Watch.{InotifyWatch, Directory, watch_init}
use amdgpu_fand.Config.CLibrary.{CLibrary}
use amdgpu_fand.Config.File.{config_parse}
use amdgpu_fand.Daemon.{Daemon, nonzero}

-- IN_MODIFY
abbrev pub in_modify : ℕ
in_modify = 2

-- What the system answers: the handlers' set-up, whether to fork and the results of fork, setsid and fork, mkdir,
-- `pidfile_write`, chdir, the file, the socket's calls and its path, the watch's, `hwmon_open`, and `drm_open`, none
-- where the daemon is built without it.
pub record Startup : Type 0 where
  pub handlers : ℤ
  pub fork_asked : Bool
  pub first_fork : ℤ
  pub session : ℤ
  pub second_fork : ℤ
  pub dir_made : ℤ
  pub pidfile_written : ℤ
  pub dir_changed : ℤ
  pub lib : CLibrary
  pub file : Option (List (List ℕ))
  pub setup : Setup
  pub socket_path : List ℕ
  pub directory : Directory
  pub card : ℤ
  pub drm : Option ℤ

-- `daemon_fork`; the parents leave by exit.
unfoldable pub daemon_fork : Startup → ℤ
daemon_fork s =
    if is_negative s.first_fork || is_negative s.session || is_negative s.second_fork
    then negsuc 0
    else pos 0

-- `fanctrl_init`
unfoldable pub fanctrl_init : ℤ → Option ℤ → ℤ
fanctrl_init (negsuc n) drm = negsuc n
fanctrl_init (pos card) none = pos 0
fanctrl_init (pos card) (some opened) = opened

abbrev pub Started : Type 0
Started = Outcome (ℤ × Daemon)

unfoldable pub configure_fans : Daemon → ℤ × Fanctrl → ℤ × Daemon
configure_fans d (status, fan) =
    (if is_negative status then negsuc 0 else pos 0, record d { fan = fan })

unfoldable pub start_fans : Startup → Daemon → ℤ × InotifyWatch → ℤ × Daemon
start_fans s d (status, watch) =
    if nonzero status || is_negative (fanctrl_init s.card s.drm)
    then (negsuc 0, record d { watch = watch })
    else configure_fans (record d { watch = watch }) (configure d.config d.fan)

unfoldable pub start_watch : Startup → Daemon → ℤ × Socket → Started
start_watch s d (status, socket) =
    if nonzero status
    then ret (negsuc 0, record d { pollfd = socket.pollfd })
    else (watch_init s.directory d.watch in_modify >>= λ r.
        ret (start_fans s (record d { pollfd = socket.pollfd }) r))

unfoldable pub start_server : Startup → Daemon → ℤ × FandConfig → Started
start_server s d (status, config) =
    if nonzero status
    then ret (negsuc 0, record d { config = config })
    else (server_init s.setup s.socket_path d.pollfd
        >>= start_watch s (record d { config = config }))

-- `daemon_init`
unfoldable pub init : Startup → Daemon → Started
init s d =
    if nonzero s.handlers
      || s.fork_asked && nonzero (daemon_fork s)
      || nonzero s.dir_made
      || nonzero s.pidfile_written
      || nonzero s.dir_changed
    then ret (negsuc 0, d)
    else (config_parse s.lib s.file d.config >>= start_server s d)
