-- ===== src/Daemon/Running.antt =====
-- The invariant of the state of src/fand/daemon.c, from its initialisation on.
use amdgpu_fand.Base.{
  ℕ, ◌+◌, ◌*◌, ◌<◌, ◌≤◌, ◌≡◌, ◌⊎◌, refl, sym, subst, arith, List, false, ◌&&◌, ◌||◌, Bool-cases,
  inl, inr, get_or, Option, ℤ, pos, negsuc, is_negative,
}
use amdgpu_fand.Fanctrl.{FandConfig, Fanctrl, configure}
use amdgpu_fand.Fanctrl.Inv.{IsValid, IsConfig, configure-IsValid, configure-IsCurve}
use amdgpu_fand.Fanctrl.Curve.{IsCurve}
use amdgpu_fand.Serialize.Outcome.{Ensures, >>=-Ensures, Ensures-weaken, Ensures-both}
use amdgpu_fand.Server.Socket.{Socket}
use amdgpu_fand.Server.Setup.{IsSetUp, server_init-IsSetUp}
use amdgpu_fand.Watch.Setup.{IsWatching, watch_init-IsWatching}
use amdgpu_fand.Watch.{InotifyWatch}
use amdgpu_fand.Config.CLibrary.{CLibrary}
use amdgpu_fand.Config.File.{config_parse}
use amdgpu_fand.Config.Settings.{IsSettings}
use amdgpu_fand.Config.Ranges.{RejectsEmpty}
use amdgpu_fand.Config.Parsing.{IsParsed, config_parse-IsParsed}
use amdgpu_fand.Daemon.{Daemon, nonzero}
use amdgpu_fand.Daemon.Start.{
  in_modify, Startup, daemon_fork, fanctrl_init, configure_fans, start_fans, start_watch,
  start_server, init,
}

-- The percentages do not fall from one row to the next.
abbrev pub IsRising : FandConfig → Type 0
IsRising config =
    (i : ℕ)
    → i + 1 < config.matrix_rows
    → get_or config.matrix (2 * i + 1) 0 ≤ get_or config.matrix (2 * (i + 1) + 1) 0

-- Whatever the settings before, a file that is accepted gives percentages that do not fall; and the expression of a
-- matrix does not match the empty string.
pub record IsFile (lib : CLibrary) (file : Option (List (List ℕ))) : Type 0 where
  pub rejects : RejectsEmpty lib
  pub rising :
      (config : FandConfig)
      → IsSettings config
      → Ensures (λ r. r.0 ≡ pos 0 → IsRising r.1) (config_parse lib file config)

-- The settings are in range, and good for the fan control where they were accepted.
abbrev pub IsLoaded : ℤ × FandConfig → Type 0
IsLoaded (status, config) = IsSettings config × (status ≡ pos 0 → IsConfig config)

IsParsed-IsLoaded : (r : ℤ × FandConfig) → IsParsed r → (r.0 ≡ pos 0 → IsRising r.1) → IsLoaded r
IsParsed-IsLoaded (status, config) (rows, ok) rising = (
  ok,
  λ e. record {
    some_row = rows e;
    room = omega (arith, ok.rows_max);
    temp_max = λ i h. ok.temp_max (2 * i);
    speed_max = λ i h. ok.speed_max i;
    rising = rising e;
  },
)

pub config_parse-IsLoaded :
    (lib : CLibrary) (file : Option (List (List ℕ))) (config : FandConfig)
    → IsFile lib file
    → IsSettings config
    → Ensures IsLoaded (config_parse lib file config)
config_parse-IsLoaded lib file config good ok =
    Ensures-weaken (λ r. IsParsed r × (r.0 ≡ pos 0 → IsRising r.1)) IsLoaded _
      (λ r both. IsParsed-IsLoaded r both.0 both.1)
      (Ensures-both IsParsed (λ r. r.0 ≡ pos 0 → IsRising r.1) _
        (config_parse-IsParsed lib file config good.rejects ok) (good.rising config ok))

pub nonzero-false : (status : ℤ) → nonzero status ≡ false → status ≡ pos 0
unfolding nonzero
nonzero-false (pos n) e = ground arith
nonzero-false (negsuc n) e = cc

-- What `daemon_init` leaves: settings in range, a state of the fan control that is well formed, with a curve where
-- there was one or where it succeeded, and the flags.
pub record IsStarted (before : Daemon) (r : ℤ × Daemon) : Type 0 where
  pub settings : IsSettings r.1.config
  pub valid : IsValid r.1.fan
  pub curve : IsCurve before.fan.matrix ⊎ (r.0 ≡ pos 0) → IsCurve r.1.fan.matrix
  pub flags : r.1.flags ≡ before.flags

-- A daemon that has not started keeps its fan control.
unstarted :
    (before d : Daemon)
    → IsSettings d.config
    → IsValid before.fan
    → d.fan ≡ before.fan
    → d.flags ≡ before.flags
    → IsStarted before (negsuc 0, d)
unstarted before d ok valid fan flags = record {
  settings = ok;
  valid = subst IsValid (sym fan) valid;
  curve = λ c. elim c [
    | inl before ↦ subst (λ (f : Fanctrl). IsCurve f.matrix) (sym fan) before
    | inr e ↦ cc
  ];
  flags = flags;
}

module _ (before : Daemon) (valid : IsValid before.fan) where
  configure_fans-IsStarted :
      (d : Daemon)
      → IsSettings d.config
      → IsConfig d.config
      → d.fan ≡ before.fan
      → d.flags ≡ before.flags
      → IsStarted before (configure_fans d (configure d.config d.fan))
  unfolding configure_fans
  configure_fans-IsStarted d ok good fan flags =
      let valid' = subst IsValid (sym fan) valid in
      record {
        settings = ok;
        valid = configure-IsValid d.config d.fan valid';
        curve = λ c. (configure-IsCurve d.config d.fan valid' good).1;
        flags = flags;
      }

  start_fans-IsStarted :
      (s : Startup) (d : Daemon) (r : ℤ × InotifyWatch)
      → IsSettings d.config
      → IsConfig d.config
      → d.fan ≡ before.fan
      → d.flags ≡ before.flags
      → IsStarted before (start_fans s d r)
  unfolding start_fans
  start_fans-IsStarted s d (status, watch) ok good fan flags =
      elim (Bool-cases (nonzero status || is_negative (fanctrl_init s.card s.drm))) [
        | inl e ↦ rw e (unstarted before (record d { watch = watch }) ok valid fan flags)
        | inr e ↦ rw e (configure_fans-IsStarted (record d { watch = watch }) ok good fan flags)
      ]

  start_watch-IsStarted :
      (s : Startup) (d : Daemon) (r : ℤ × Socket)
      → IsSettings d.config
      → IsConfig d.config
      → d.fan ≡ before.fan
      → d.flags ≡ before.flags
      → Ensures (IsStarted before) (start_watch s d r)
  unfolding start_watch
  start_watch-IsStarted s d (status, socket) ok good fan flags =
      let d' : Daemon = record d { pollfd = socket.pollfd } in
      elim (Bool-cases (nonzero status)) [
        | inl e ↦ rw e (unstarted before d' ok valid fan flags)
        | inr e ↦ rw e (
            >>=-Ensures (IsWatching s.directory in_modify d.watch) (IsStarted before) _ _
              (watch_init-IsWatching s.directory d.watch in_modify)
              (λ r w. start_fans-IsStarted s d' r ok good fan flags))
      ]

  start_server-IsStarted :
      (s : Startup) (r : ℤ × FandConfig)
      → IsLoaded r
      → Ensures (IsStarted before) (start_server s before r)
  unfolding start_server
  start_server-IsStarted s (status, config) (ok, good) =
      let d : Daemon = record before { config = config } in
      elim (Bool-cases (nonzero status)) [
        | inl e ↦ rw e (unstarted before d ok valid refl refl)
        | inr e ↦ rw e (
            >>=-Ensures (IsSetUp s.setup s.socket_path before.pollfd) (IsStarted before) _ _
              (server_init-IsSetUp s.setup s.socket_path before.pollfd)
              (λ r w. start_watch-IsStarted s d r ok (good (nonzero-false status e)) refl refl))
      ]

  pub init-IsStarted :
      (s : Startup)
      → IsFile s.lib s.file
      → IsSettings before.config
      → Ensures (IsStarted before) (init s before)
  unfolding init
  init-IsStarted s file ok =
      elim (Bool-cases (
        nonzero s.handlers
        || s.fork_asked && nonzero (daemon_fork s)
        || nonzero s.dir_made
        || nonzero s.pidfile_written
        || nonzero s.dir_changed)) [
          | inl e ↦ rw e (unstarted before before ok valid refl refl)
          | inr e ↦ rw e (
              >>=-Ensures IsLoaded (IsStarted before) _ _
                (config_parse-IsLoaded s.lib s.file before.config file ok)
                (λ r loaded. start_server-IsStarted s r loaded))
        ]
