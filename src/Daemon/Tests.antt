-- ===== src/Daemon/Tests.antt =====
-- Runs of the daemon of src/fand/daemon.c.
use amdgpu_fand.Base.{
  same_string, ap, c_string, ◌≡◌, refl, [], ◌∷◌, false, replicate, none, some, pos, negsuc, codes,
}
use amdgpu_fand.Fanctrl.{configure, set_matrix, copy_rows}
use amdgpu_fand.Serialize.Outcome.{ret, Ensures, ◌>>=◌}
use amdgpu_fand.Strutils.{strscpy, copy, terminate}
use amdgpu_fand.Server.{Session, Served, user, check_peer, recv_and_respond}
use amdgpu_fand.Server.Responses.{IsSession}
use amdgpu_fand.Server.Socket.{Setup, server_init, server_kill, bind_socket, listen_socket}
use amdgpu_fand.Server.Setup.{IsSetUp, server_init-IsSetUp}
use amdgpu_fand.Watch.{
  strrchr, whole_path, failed, watch_init, watch_clear, abspath, strip_filename, watch_path,
  watch_dir, add_watch,
}
use amdgpu_fand.Watch.Events.{Event, events_bytes}
use amdgpu_fand.Watch.Setup.{IsWatching, watch_init-IsWatching}
use amdgpu_fand.Server.Exit.{IsAccepted}
use amdgpu_fand.Config.Sample.{loaded, load_file}
use amdgpu_fand.Config.File.{config_parse, parse_file}
use amdgpu_fand.Daemon.{
  sigterm, sighup, sigpipe, Daemon, kill, stop, nonzero, free, fanctrl_release,
}
use amdgpu_fand.Daemon.Start.{
  init, in_modify, start_server, daemon_fork, start_watch, start_fans, fanctrl_init, configure_fans,
}
use amdgpu_fand.Daemon.Round.{Round, loop, or_int, finish_main, enter_loop, initial, daemon_main}
use amdgpu_fand.Daemon.Children.{child_ended, sighandler-recv_and_respond}
use amdgpu_fand.Daemon.Sample.{setup, directory, startup, shutdown, fan, daemon, quiet}

-- The socket cannot listen, and its file cannot be removed.
abbrev setup_fails : Setup
setup_fails = record setup { listen = negsuc 0; unlink = negsuc 0 }

-- The daemon starts with the rows of the file.
starts :
    init startup daemon
    ≡ ret (
      pos 0,
      record daemon {
        config = loaded daemon.config;
        watch = record { fd = pos 5; wd = pos 1; flags = in_modify; triggered = false };
        fan = record {
          matrix = record {
            rows = 2;
            temps = 50 ∷ 70 ∷ replicate 14 0;
            speeds = 20 ∷ 90 ∷ replicate 14 0;
          };
          hysteresis = 0;
          current_threshold = negsuc 0;
          throttle = false;
        };
      },
    )
unfolding same_string c_string strrchr whole_path init nonzero daemon_fork start_server server_init
    bind_socket listen_socket start_watch watch_init start_fans fanctrl_init configure_fans
    configure set_matrix copy_rows strscpy copy terminate failed abspath strip_filename watch_path
    watch_dir add_watch initial
starts = ap (λ o. o >>= start_server startup daemon) (load_file daemon.config)

start_fails :
    daemon_main (record startup { file = none }) (quiet [] [] ∷ []) shutdown (pos 0) fan (pos 4)
    ≡ ret (some (pos 1))
unfolding daemon_main init initial enter_loop loop stop kill nonzero finish_main or_int free
    watch_clear failed server_kill fanctrl_release config_parse parse_file start_server daemon_fork
start_fails = refl

server_init-IsSetUp_example :
    Ensures
      (IsSetUp setup_fails (codes "/run/fand/sock") (negsuc 0))
      (server_init setup_fails (codes "/run/fand/sock") (negsuc 0))
server_init-IsSetUp_example = server_init-IsSetUp setup_fails (codes "/run/fand/sock") (negsuc 0)

watch_init-IsWatching_example :
    Ensures
      (IsWatching directory in_modify daemon.watch)
      (watch_init directory daemon.watch in_modify)
watch_init-IsWatching_example = watch_init-IsWatching directory daemon.watch in_modify

-- The configuration's file was written to.
abbrev changed : Event
changed = record { wd = 1; mask = in_modify; cookie = 0; name = codes "fand.conf"; padding = 7 }

-- The watch reports the file, and SIGPIPE comes before the call for a restart.
abbrev busy : Round
busy = record (quiet (sighup ∷ []) (sigterm ∷ [])) {
  before_restart = sigpipe ∷ [];
  events = some (events_bytes (changed ∷ []));
}

abbrev watching : Daemon
watching = record daemon {
  watch = record { fd = pos 5; wd = pos 1; flags = in_modify; triggered = false };
}

-- The exit request of the super user, where the response cannot be sent.
abbrev exit_session : Session
exit_session = record {
  nbytes = pos 1;
  request = 1;
  peer = user 0;
  sensor = pos 45000;
  pwm = pos 0;
  stack = replicate 48 0;
  send = λ bytes. negsuc 0;
}

exit_session-IsSession : IsSession exit_session
exit_session-IsSession = record { arrived = refl; stack_room = refl }

sighandler-recv_and_respond_example :
    (IsAccepted exit_session
      → Ensures
          (λ served.
            child_ended daemon.flags (256 ∷ []) 0 served.status
            ≡ record daemon.flags { alive = false })
          (recv_and_respond exit_session daemon.config))
    × (¬ IsAccepted exit_session
        → (served : Served) → recv_and_respond exit_session daemon.config ≡ ret served
        → child_ended daemon.flags (256 ∷ []) 0 served.status ≡ daemon.flags)
sighandler-recv_and_respond_example =
    sighandler-recv_and_respond daemon.flags exit_session daemon.config (256 ∷ []) 0
      exit_session-IsSession

exit_session-IsAccepted : IsAccepted exit_session
exit_session-IsAccepted = (refl, unfold check_peer in refl)
