-- ===== src/Daemon.antt =====
-- src/fand/daemon.c: the flags that its signal handler sets, and the state of the daemon.
pub mod Signals
pub mod Start
pub mod Round
pub mod Running
pub mod Steps
pub mod Ends
pub mod Children
pub mod Sample
mod Tests
use amdgpu_fand.Base.{
  ℕ, zero, suc, ◌/◌, ◌%◌, List, [], ◌∷◌, Bool, true, false, not, ◌||◌, ◌==◌, if◌then◌else◌, ℤ, pos,
  negsuc,
}
use amdgpu_fand.Fanctrl.{FandConfig, Fanctrl}
use amdgpu_fand.Server.{fand_server_exit}
use amdgpu_fand.Server.Socket.{server_kill}
use amdgpu_fand.Watch.{InotifyWatch, watch_clear}

-- The signals that are handled. SIGCHLD comes with the statuses that waitpid gives in turn, and what `status` holds
-- before.
pub data Signal : Type 0 where
  sigint sigterm sigpipe sighup : Signal
  sigchld : List ℕ → ℕ → Signal

-- `daemon_alive`, `daemon_reload_pending` and `daemon_sigpipe_caught`.
pub record Flags : Type 0 where
  pub alive : Bool
  pub reload_pending : Bool
  pub sigpipe_caught : Bool

unfoldable pub kill : Flags → Flags
kill f = record f { alive = false }

-- The status after the loop over waitpid.
unfoldable pub last_status : List ℕ → ℕ → ℕ
last_status [] status = status
last_status (next ∷ statuses) status = last_status statuses next

-- WEXITSTATUS
unfoldable pub wexitstatus : ℕ → ℕ
wexitstatus status = status / 256 % 256

unfoldable pub sighandler : Flags → Signal → Flags
sighandler f sigint = kill f
sighandler f sigterm = kill f
sighandler f sigpipe = record f { sigpipe_caught = true }
sighandler f sighup = record f { reload_pending = true }
sighandler f (sigchld statuses status) =
    if wexitstatus (last_status statuses status) == fand_server_exit then kill f else f

-- Signals that arrive one after the other.
unfoldable pub handle_signals : Flags → List Signal → Flags
handle_signals f [] = f
handle_signals f (s ∷ signals) = handle_signals (sighandler f s) signals

-- The flags, the local variables of `daemon_main`, the state of the fan control, and the `fd` of the server.
pub record Daemon : Type 0 where
  pub flags : Flags
  pub config : FandConfig
  pub watch : InotifyWatch
  pub fan : Fanctrl
  pub pollfd : ℤ

unfoldable pub deliver : List Signal → Daemon → Daemon
deliver signals d = record d { flags = handle_signals d.flags signals }

unfoldable pub stop : Daemon → Daemon
stop d = record d { flags = kill d.flags }

-- The test of a status.
unfoldable pub nonzero : ℤ → Bool
nonzero (pos n) = not (n == 0)
nonzero (negsuc n) = true

-- The results of the calls that `daemon_free` makes: of inotify_rm_watch and close, of close and unlink on the
-- socket, of `pidfile_unlink`, rmdir, and `hwmon_close`.
pub record Shutdown : Type 0 where
  pub watch_removed : ℤ
  pub watch_closed : ℤ
  pub socket_closed : ℤ
  pub socket_unlinked : ℤ
  pub pidfile_unlinked : ℤ
  pub dir_removed : ℤ
  pub hwmon_closed : ℤ

-- `fanctrl_release`
unfoldable pub fanctrl_release : ℤ → ℤ
fanctrl_release hwmon_closed = hwmon_closed

-- `daemon_free`: every resource is released, whether the release of another one fails or not.
unfoldable pub free : Shutdown → InotifyWatch → ℤ
free s watch =
    if nonzero (watch_clear s.watch_removed s.watch_closed watch)
      || nonzero (server_kill s.socket_closed s.socket_unlinked)
      || nonzero s.pidfile_unlinked
      || nonzero s.dir_removed
      || nonzero (fanctrl_release s.hwmon_closed)
    then negsuc 0
    else pos 0
