-- ===== src/Daemon/Steps.antt =====
-- The invariant and the flag `daemon_alive` over a round of the main loop of src/fand/daemon.c.
use amdgpu_fand.Base.{
  ℕ, ◌≡◌, refl, sym, subst, arith, List, Bool, true, false, ◌||◌, ◌==◌, if◌then◌else◌, Bool-cases,
  inl, inr, All, ne→==, Option, none, some, ℤ, pos, negsuc,
}
use amdgpu_fand.Fanctrl.{FandConfig, Fanctrl, Adjusted, adjust, adjust_at, get_temp}
use amdgpu_fand.Fanctrl.Inv.{IsValid, configure-IsValid, configure-IsCurve}
use amdgpu_fand.Fanctrl.Curve.{IsCurve}
use amdgpu_fand.Fanctrl.Adjust.{adjust-Adjustment}
use amdgpu_fand.Fanctrl.Hysteresis.{Adjustment-IsValid}
use amdgpu_fand.Serialize.Outcome.{Outcome, ret, ◌>>=◌, Ensures, >>=-Ensures}
use amdgpu_fand.Watch.{InotifyWatch, watch_event}
use amdgpu_fand.Watch.Events.{Event, IsEvent, events_bytes, watch_event-reports}
use amdgpu_fand.Config.Settings.{IsSettings}
use amdgpu_fand.Daemon.{Signal, Flags, kill, Daemon, handle_signals, deliver, stop, nonzero}
use amdgpu_fand.Daemon.Signals.{handle_signals_dead}
use amdgpu_fand.Daemon.Start.{init}
use amdgpu_fand.Daemon.Round.{
  is_fatal, Round, stop_if_fatal, adjusted, adjust_fanspeed, reconfigured, take_config, reload,
  clear_reload, reload_pending, watched, daemon_watch_event, clear_sigpipe, restarted,
  handle_pending_signals,
}
use amdgpu_fand.Daemon.Running.{
  IsFile, IsLoaded, config_parse-IsLoaded, nonzero-false, IsStarted, init-IsStarted,
}

-- A daemon that can go on: settings in range, and a curve that does not fall.
pub record IsReady (d : Daemon) : Type 0 where
  pub settings : IsSettings d.config
  pub valid : IsValid d.fan
  pub curve : IsCurve d.fan.matrix

abbrev pub IsDead : Daemon → Type 0
IsDead d = d.flags.alive ≡ false

-- What follows a state of the daemon: it can go on, and it is dead where it was.
abbrev pub IsLater : Daemon → Daemon → Type 0
IsLater d d' = IsReady d' × (IsDead d → IsDead d')

-- Whole events, or a read that fails.
abbrev pub HasEvents : Option (List ℕ) → Type 0
HasEvents none = Unit {0}
HasEvents (some bytes) = (events : List Event) × All IsEvent events × (bytes ≡ events_bytes events)

-- What is asked of the world: files whose matrices do not fall, settings in range in the struct that a reload finds
-- on the stack, and whole events.
pub record IsWorld (r : Round) : Type 0 where
  pub file : IsFile r.lib r.file
  pub restart_file : IsFile r.startup.lib r.startup.file
  pub stack : IsSettings r.stack
  pub events : HasEvents r.events

-- Flags are in no part of the invariant.
flags-IsReady : (d : Daemon) (f : Flags) → IsReady d → IsReady (record d { flags = f })
flags-IsReady d f ok = record { settings = ok.settings; valid = ok.valid; curve = ok.curve }

pub deliver-IsLater :
    (signals : List Signal) (d : Daemon) → IsReady d → IsLater d (deliver signals d)
unfolding deliver
deliver-IsLater signals d ok =
    (flags-IsReady d (handle_signals d.flags signals) ok, handle_signals_dead d.flags signals)

stop-IsLater : (d : Daemon) → IsReady d → IsLater d (stop d)
unfolding stop kill
stop-IsLater d ok = (flags-IsReady d (kill d.flags) ok, λ dead. refl)

stop_if_fatal-IsLater : (status : ℤ) (d : Daemon) → IsReady d → IsLater d (stop_if_fatal status d)
unfolding stop_if_fatal
stop_if_fatal-IsLater status d ok = elim (Bool-cases (is_fatal status)) [
  | inl e ↦ rw e (stop-IsLater d ok)
  | inr e ↦ rw e (ok, λ dead. dead)
]

-- The fan control after a call of `fanctrl_adjust`.
abbrev IsAdjusted : Option Adjusted → Type 0
IsAdjusted none = ⊥
IsAdjusted (some a) = IsValid a.state × IsCurve a.state.matrix

adjust-IsAdjusted :
    (write : ℕ → ℤ) (sensor : ℤ) (s : Fanctrl)
    → IsValid s
    → IsCurve s.matrix
    → IsAdjusted (adjust write sensor s)
unfolding adjust adjust_at get_temp
adjust-IsAdjusted write (pos x) s ok c =
    let (s', v, e, small, how) = adjust-Adjustment write x s ok c in
    subst IsAdjusted (sym e) (Adjustment-IsValid ok c how)
adjust-IsAdjusted write (negsuc n) s ok c =
    let some_row : (s.matrix.rows == 0) ≡ false =
      ne→== s.matrix.rows 0 (omega (arith, c.some_row)) in
    rw some_row (ok, c)

adjusted-IsLater :
    (d : Daemon) (a : Option Adjusted)
    → IsReady d
    → IsAdjusted a
    → Ensures (λ x. IsLater d x.1) (adjusted d a)
unfolding adjusted
adjusted-IsLater d none ok h = absurd h
adjusted-IsLater d (some a) ok (valid, curve) =
    stop_if_fatal-IsLater a.status (record d { fan = a.state })
      (record { settings = ok.settings; valid = valid; curve = curve })

pub adjust_fanspeed-IsLater :
    (r : Round) (d : Daemon) → IsReady d → Ensures (λ x. IsLater d x.1) (adjust_fanspeed r d)
unfolding adjust_fanspeed
adjust_fanspeed-IsLater r d ok =
    adjusted-IsLater d (adjust r.write r.sensor d.fan) ok
      (adjust-IsAdjusted r.write r.sensor d.fan ok.valid ok.curve)

take_config-IsLater :
    (d : Daemon) (parsed : ℤ × FandConfig)
    → IsReady d
    → IsLoaded parsed
    → IsLater d (take_config d parsed).1
unfolding take_config reconfigured
take_config-IsLater d (status, config) ok (settings, good) = elim (Bool-cases (nonzero status)) [
  | inl e ↦ rw e (ok, λ dead. dead)
  | inr e ↦ rw e (
    record {
      settings = settings;
      valid = configure-IsValid config d.fan ok.valid;
      curve = (configure-IsCurve config d.fan ok.valid (good (nonzero-false status e))).1;
    },
    λ dead. dead,
  )
]

reload-IsLater :
    (r : Round) (d : Daemon) → IsWorld r → IsReady d → Ensures (λ x. IsLater d x.1) (reload r d)
unfolding reload
reload-IsLater r d world ok =
    >>=-Ensures IsLoaded (λ x. IsLater d x.1) _ _
      (config_parse-IsLoaded r.lib r.file r.stack world.file world.stack)
      (λ parsed loaded. take_config-IsLater d parsed ok loaded)

clear_reload-IsLater : (d : Daemon) → IsReady d → IsLater d (clear_reload d)
unfolding clear_reload
clear_reload-IsLater d ok =
    (flags-IsReady d (record d.flags { reload_pending = false }) ok, λ dead. dead)

reload_pending-IsLater :
    (r : Round) (d : Daemon) → IsWorld r → IsReady d → Ensures (IsLater d) (reload_pending r d)
unfolding reload_pending
reload_pending-IsLater r d world ok =
    elim (Bool-cases (d.flags.reload_pending || d.watch.triggered)) [
      | inr e ↦ rw e (ok, λ dead. dead)
      | inl e ↦
          let (ok1, dead1) = clear_reload-IsLater d ok in
          let (ok2, dead2) = deliver-IsLater r.in_reload (clear_reload d) ok1 in
          rw e (
            >>=-Ensures (λ x. IsLater (deliver r.in_reload (clear_reload d)) x.1) (IsLater d) _ _
              (reload-IsLater r (deliver r.in_reload (clear_reload d)) world ok2)
              (λ x later.
                let (ok4, dead4) = stop_if_fatal-IsLater x.0 x.1 later.0 in
                (ok4, λ dead. dead4 (later.1 (dead2 (dead1 dead))))))
    ]

watched-IsLater :
    (r : Round) (d : Daemon) (x : ℤ × InotifyWatch)
    → IsWorld r
    → IsReady d
    → Ensures (IsLater d) (watched r d x)
unfolding watched
watched-IsLater r d (status, watch) world ok =
    reload_pending-IsLater r (record d { watch = watch }) world
      (record { settings = ok.settings; valid = ok.valid; curve = ok.curve })

watch_event_defined :
    (events : Option (List ℕ)) (path : List ℕ) (watch : InotifyWatch)
    → HasEvents events
    → Ensures (λ x. Unit {0}) (watch_event events path watch)
unfolding watch_event
watch_event_defined none path watch h = tt
watch_event_defined (some bytes) path watch (events, all, e) =
    subst (λ (bytes : List ℕ). Ensures (λ x. Unit {0}) (watch_event (some bytes) path watch))
      (sym e)
      (subst (λ (o : Outcome (ℤ × InotifyWatch)). Ensures (λ x. Unit {0}) o)
        (sym (watch_event-reports path watch events all)) tt)

pub daemon_watch_event-IsLater :
    (r : Round) (d : Daemon) → IsWorld r → IsReady d → Ensures (IsLater d) (daemon_watch_event r d)
unfolding daemon_watch_event
daemon_watch_event-IsLater r d world ok =
    >>=-Ensures (λ x. Unit {0}) (IsLater d) _ _
      (watch_event_defined r.events r.path d.watch world.events)
      (λ x u. watched-IsLater r d x world ok)

clear_sigpipe-IsLater : (d : Daemon) → IsReady d → IsLater d (clear_sigpipe d)
unfolding clear_sigpipe
clear_sigpipe-IsLater d ok =
    (flags-IsReady d (record d.flags { sigpipe_caught = false }) ok, λ dead. dead)

finish_restart-IsLater :
    (r : Round) (d : Daemon) → IsReady d → IsLater d (clear_sigpipe (deliver r.in_restart d))
finish_restart-IsLater r d ok =
    let (ok1, dead1) = deliver-IsLater r.in_restart d ok in
    let (ok2, dead2) = clear_sigpipe-IsLater (deliver r.in_restart d) ok1 in
    (ok2, λ dead. dead2 (dead1 dead))

restarted-IsLater : (r : Round) (x : ℤ × Daemon) → IsReady x.1 → IsLater x.1 (restarted r x)
unfolding restarted
restarted-IsLater r (status, d) ok = elim (Bool-cases (nonzero status)) [
  | inl e ↦
      let (ok1, dead1) = stop-IsLater d ok in
      let (ok2, dead2) = finish_restart-IsLater r (stop d) ok1 in
      rw e (ok2, λ dead. dead2 (dead1 dead))
  | inr e ↦ rw e (finish_restart-IsLater r d ok)
]

IsStarted-IsReady : (d : Daemon) (x : ℤ × Daemon) → IsReady d → IsStarted d x → IsReady x.1
IsStarted-IsReady d x ok started = record {
  settings = started.settings;
  valid = started.valid;
  curve = started.curve (inl ok.curve);
}

pub handle_pending_signals-IsLater :
    (r : Round) (d : Daemon)
    → IsWorld r
    → IsReady d
    → Ensures (IsLater d) (handle_pending_signals r d)
unfolding handle_pending_signals
handle_pending_signals-IsLater r d world ok =
    elim d.flags.sigpipe_caught
      as (λ (caught : Bool).
        Ensures (IsLater d)
          (if caught then (init r.startup d >>= λ x. ret (restarted r x)) else ret d)) [
            | false ↦ (ok, λ dead. dead)
            | true ↦
                >>=-Ensures (IsStarted d) (IsLater d) _ _
                  (init-IsStarted d ok.valid r.startup world.restart_file ok.settings)
                  (λ x started.
                    let (ok2, later) = restarted-IsLater r x (IsStarted-IsReady d x ok started) in
                    (
                      ok2,
                      λ dead.
                          later (subst (λ (f : Flags). f.alive ≡ false) (sym started.flags) dead),
                    ))
          ]
