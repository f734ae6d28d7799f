-- ===== src/Daemon/Round.antt =====
-- The main loop of src/fand/daemon.c. What the world gives to a round of it is a `Round`.
use Prim.Native.Nat.{bit_or}
use amdgpu_fand.Base.{
  ℕ, List, [], ◌∷◌, Bool, true, false, ◌||◌, ◌==◌, if◌then◌else◌, replicate, Option, none, some, ℤ,
  pos, negsuc, int_pattern, int_of,
}
use amdgpu_fand.Fanctrl.{FandConfig, Fanctrl, Adjusted, adjust, configure, fand_fatal_err}
use amdgpu_fand.Serialize.Outcome.{Outcome, ret, undefined, ◌>>=◌}
use amdgpu_fand.Watch.{InotifyWatch, watch_event}
use amdgpu_fand.Config.CLibrary.{CLibrary}
use amdgpu_fand.Config.File.{config_parse}
use amdgpu_fand.Daemon.{Signal, Daemon, deliver, stop, nonzero, Shutdown, free}
use amdgpu_fand.Daemon.Start.{Startup, init}

-- The signals by the calls that they come before or in, the sensor and the PWM file, what read gives for the watch, the
-- configuration's file, what a reload finds on the stack, and what a restart meets.
pub record Round : Type 0 where
  pub before_adjust : List Signal
  pub before_watch : List Signal
  pub in_reload : List Signal
  pub before_restart : List Signal
  pub in_restart : List Signal
  pub in_poll : List Signal
  pub sensor : ℤ
  pub write : ℕ → ℤ
  pub path : List ℕ
  pub events : Option (List ℕ)
  pub lib : CLibrary
  pub file : Option (List (List ℕ))
  pub stack : FandConfig
  pub startup : Startup

unfoldable pub is_fatal : ℤ → Bool
is_fatal (pos n) = false
is_fatal (negsuc n) = n == 31

-- A fatal status stops the daemon.
unfoldable pub stop_if_fatal : ℤ → Daemon → Daemon
stop_if_fatal status d = if is_fatal status then stop d else d

unfoldable pub adjusted : Daemon → Option Adjusted → Outcome (ℤ × Daemon)
adjusted d none = undefined
adjusted d (some a) = ret (a.status, stop_if_fatal a.status (record d { fan = a.state }))

-- `daemon_adjust_fanspeed`
unfoldable pub adjust_fanspeed : Round → Daemon → Outcome (ℤ × Daemon)
adjust_fanspeed r d = adjusted d (adjust r.write r.sensor d.fan)

unfoldable pub reconfigured : Daemon → FandConfig → ℤ × Fanctrl → ℤ × Daemon
reconfigured d config (status, fan) =
    (if nonzero status then fand_fatal_err else pos 0, record d { config = config; fan = fan })

unfoldable pub take_config : Daemon → ℤ × FandConfig → ℤ × Daemon
take_config d (status, config) =
    if nonzero status then (negsuc 0, d) else reconfigured d config (configure config d.fan)

-- `daemon_reload`
unfoldable pub reload : Round → Daemon → Outcome (ℤ × Daemon)
reload r d = config_parse r.lib r.file r.stack >>= λ parsed. ret (take_config d parsed)

unfoldable pub clear_reload : Daemon → Daemon
clear_reload d = record d { flags = record d.flags { reload_pending = false } }

unfoldable pub reload_pending : Round → Daemon → Outcome Daemon
reload_pending r d =
    if d.flags.reload_pending || d.watch.triggered
    then (reload r (deliver r.in_reload (clear_reload d)) >>= λ x. ret (stop_if_fatal x.0 x.1))
    else ret d

-- The rest of `daemon_watch_event`; the result of `fsys_watch_event` is for the log only.
unfoldable pub watched : Round → Daemon → ℤ × InotifyWatch → Outcome Daemon
watched r d (status, watch) = reload_pending r (record d { watch = watch })

-- `daemon_watch_event`
unfoldable pub daemon_watch_event : Round → Daemon → Outcome Daemon
daemon_watch_event r d = watch_event r.events r.path d.watch >>= watched r d

unfoldable pub clear_sigpipe : Daemon → Daemon
clear_sigpipe d = record d { flags = record d.flags { sigpipe_caught = false } }

-- The end of a restart. What `daemon_free` returned is not looked at.
unfoldable pub restarted : Round → ℤ × Daemon → Daemon
restarted r (status, d) =
    clear_sigpipe (deliver r.in_restart (if nonzero status then stop d else d))

-- `daemon_handle_pending_signals`
unfoldable pub handle_pending_signals : Round → Daemon → Outcome Daemon
handle_pending_signals r d =
    if d.flags.sigpipe_caught then (init r.startup d >>= λ x. ret (restarted r x)) else ret d

-- A round. `server_poll` changes nothing of the daemon; the child that it forks is a process of its own.
unfoldable pub round : Round → Daemon → Outcome (ℤ × Daemon)
round r d = adjust_fanspeed r (deliver r.before_adjust d) >>= λ x.
    daemon_watch_event r (deliver r.before_watch x.1) >>= λ d'.
    handle_pending_signals r (deliver r.before_restart d') >>= λ d''.
    ret (x.0, deliver r.in_poll d'')

-- Where the rounds are used up the daemon is running; where the loop has ended the rest of them is left.
pub data Progress : Type 0 where
  running : ℤ → Daemon → Progress
  ended : ℤ → Daemon → List Round → Progress

-- The loop of `daemon_main`.
unfoldable pub loop : List Round → ℤ → Daemon → Outcome Progress
loop [] status d = ret (if d.flags.alive then running status d else ended status d [])
loop (r ∷ rounds) status d =
    if d.flags.alive
    then (round r d >>= λ x. loop rounds x.0 x.1)
    else ret (ended status d (r ∷ rounds))

-- The `int` that `|` gives.
unfoldable pub or_int : ℤ → ℤ → ℤ
or_int a b = int_of (bit_or (int_pattern a) (int_pattern b))

unfoldable pub finish_main : Shutdown → Progress → Option ℤ
finish_main s (running status d) = none
finish_main s (ended status d rounds) = some (or_int status (free s d.watch))

-- The start of `daemon_main`; `status` is not set where `daemon_init` succeeds.
unfoldable pub enter_loop : List Round → ℤ → ℤ × Daemon → Outcome Progress
enter_loop rounds status (started, d) =
    if nonzero started then loop rounds (pos 1) (stop d) else loop rounds status d

unfoldable pub initial : Fanctrl → ℤ → Daemon
initial fan pollfd = record {
  flags = record { alive = true; reload_pending = false; sigpipe_caught = false };
  config = record {
    throttle = false;
    matrix_rows = 0;
    hysteresis = 0;
    interval = 0;
    matrix = replicate 32 0;
  };
  watch = record { fd = negsuc 0; wd = negsuc 0; flags = 0; triggered = false };
  fan = fan;
  pollfd = pollfd;
}

-- `daemon_main`: its exit status, none where it has not ended.
unfoldable pub daemon_main : Startup → List Round → Shutdown → ℤ → Fanctrl → ℤ → Outcome (Option ℤ)
daemon_main start rounds shutdown status fan pollfd =
    init start (initial fan pollfd) >>= enter_loop rounds status >>= λ p.
    ret (finish_main shutdown p)
