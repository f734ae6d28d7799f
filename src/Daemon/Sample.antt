-- ===== src/Daemon/Sample.antt =====
-- A daemon, its world and a round of it for the tests.
use amdgpu_fand.Base.{
  same_string, length-set, get_or-set_self, get_or-set_ne, ℕ, zero, suc, ◌<◌, ◌≡◌, refl, sym, subst,
  arith, set, length, List, [], ◌∷◌, true, false, replicate, none, some, pos, negsuc, codes,
}
use amdgpu_fand.Fanctrl.{FandConfig, FanctrlMatrix, Fanctrl}
use amdgpu_fand.Fanctrl.Curve.{IsCurve}
use amdgpu_fand.Fanctrl.Inv.{IsValid}
use amdgpu_fand.Serialize.Outcome.{Ensures}
use amdgpu_fand.Server.Socket.{Setup}
use amdgpu_fand.Watch.{Directory}
use amdgpu_fand.Config.Sample.{lib, lib-RejectsEmpty, file, cleared-IsSettings, loaded, load_file}
use amdgpu_fand.Config.Settings.{IsSettings}
use amdgpu_fand.Daemon.{Signal, Daemon, Shutdown}
use amdgpu_fand.Daemon.Start.{Startup}
use amdgpu_fand.Daemon.Round.{Round, initial}
use amdgpu_fand.Daemon.Running.{IsFile, IsRising}

abbrev pub setup : Setup
setup = record {
  stale = false;
  socket = pos 4;
  bind = pos 0;
  chmod = pos 0;
  listen = pos 0;
  unlink = pos 0;
  close = pos 0;
}

abbrev pub directory : Directory
directory = record {
  stat = 0;
  realpath = some (codes "/etc/fand.conf");
  is_dir = λ path. same_string path (codes "/etc");
  inotify = pos 5;
  added = pos 1;
}

-- Everything succeeds.
abbrev pub startup : Startup
startup = record {
  handlers = pos 0;
  fork_asked = true;
  first_fork = pos 0;
  session = pos 1;
  second_fork = pos 0;
  dir_made = pos 0;
  pidfile_written = pos 0;
  dir_changed = pos 0;
  lib = lib;
  file = some file;
  setup = setup;
  socket_path = codes "/run/fand/sock";
  directory = directory;
  card = pos 0;
  drm = none;
}

abbrev pub shutdown : Shutdown
shutdown = record {
  watch_removed = pos 0;
  watch_closed = pos 0;
  socket_closed = pos 0;
  socket_unlinked = pos 0;
  pidfile_unlinked = pos 0;
  dir_removed = pos 0;
  hwmon_closed = pos 0;
}

abbrev pub curve : FanctrlMatrix
curve = record { rows = 1; temps = 50 ∷ replicate 15 0; speeds = 20 ∷ replicate 15 0 }

abbrev pub fan : Fanctrl
fan = record { matrix = curve; hysteresis = 0; current_threshold = negsuc 0; throttle = false }

abbrev pub daemon : Daemon
daemon = initial fan (pos 4)

-- A round with these signals before its call for the speed, and in its poll.
abbrev pub quiet : List Signal → List Signal → Round
quiet first final = record {
  before_adjust = first;
  before_watch = [];
  in_reload = [];
  before_restart = [];
  in_restart = [];
  in_poll = final;
  sensor = pos 45000;
  write = λ pwm. pos 0;
  path = codes "/etc/fand.conf";
  events = none;
  lib = lib;
  file = some file;
  stack = daemon.config;
  startup = startup;
}

loaded-IsRising : (config : FandConfig) → length config.matrix ≡ 32 → IsRising (loaded config)
loaded-IsRising config room zero h =
    let m : List ℕ = set (set config.matrix 0 50) 1 20 in
    let len : length m ≡ 32 =
      omega (arith, length-set (set config.matrix 0 50) 1 20, length-set config.matrix 0 50) in
    rw
      (
        get_or-set_ne (set m 2 70) {i = 3} {j = 1} 90 0 (omega arith),
        get_or-set_ne m {i = 2} {j = 1} 70 0 (omega arith),
        get_or-set_self (set config.matrix 0 50) 1 20 0
            (omega (arith, length-set config.matrix 0 50)),
        get_or-set_self (set m 2 70) 3 90 0 (omega (arith, length-set m 2 70)),
      )
      (omega arith)
loaded-IsRising config room (suc i) h = absurd (omega arith)

pub sample-IsFile : IsFile lib (some file)
sample-IsFile = record {
  rejects = lib-RejectsEmpty;
  rising = λ config ok.
      subst (Ensures (λ r. r.0 ≡ pos 0 → IsRising r.1)) (sym (load_file config))
        (λ e. loaded-IsRising config ok.room);
}

pub daemon-IsSettings : IsSettings daemon.config
unfolding initial
daemon-IsSettings = cleared-IsSettings

pub fan-IsValid : IsValid fan
fan-IsValid = record {
  rows_max = omega arith;
  temps_room = refl;
  speeds_room = refl;
  threshold = refl;
}

get_or_first : (i : ℕ) → i < 1 → i ≡ 0
get_or_first i h = omega arith

pub fan-IsCurve : IsCurve curve
fan-IsCurve = record {
  some_row = omega arith;
  room = omega arith;
  temp_max = λ i h. rw (get_or_first i h) (omega arith);
  speed_max = λ i h. rw (get_or_first i h) (omega arith);
  rising = λ i h. absurd (omega arith);
}
