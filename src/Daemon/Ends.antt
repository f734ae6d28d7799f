-- ===== src/Daemon/Ends.antt =====
-- The end of the main loop of src/fand/daemon.c.
use amdgpu_fand.Base.{ℕ, ◌≤◌, ◌⊎◌, length, ℤ}
use amdgpu_fand.Daemon.{Daemon}
use amdgpu_fand.Daemon.Signals.{HasStop}
use amdgpu_fand.Daemon.Round.{Round, Progress, running, ended}
use amdgpu_fand.Daemon.Steps.{IsReady, IsDead}

-- A signal that ends the daemon comes before or in one of the calls of the round.
abbrev pub StopsIn : Round → Type 0
StopsIn r =
    HasStop r.before_adjust ⊎ HasStop r.before_watch ⊎ HasStop r.before_restart ⊎ HasStop r.in_poll

-- After a round the daemon can go on, and it is dead where it was, or where a signal came that ends it.
abbrev pub IsRound : Round → Daemon → ℤ × Daemon → Type 0
IsRound r d x = IsReady x.1 × (IsDead d ⊎ StopsIn r → IsDead x.1)

-- The loop has ended, with this many rounds left at least.
abbrev pub IsEnded : ℕ → Progress → Type 0
IsEnded left (running status d) = ⊥
IsEnded left (ended status d rounds) = left ≤ length rounds
