-- ===== src/Daemon/Signals.antt =====
-- The flag `daemon_alive` of src/fand/daemon.c is cleared by some signals, and set by nothing.
use amdgpu_fand.Base.{◌≡◌, refl, arith, List, [], ◌∷◌, false}
use amdgpu_fand.Server.{fand_server_exit}
use amdgpu_fand.Daemon.{
  Signal, sigint, sigterm, sigpipe, sighup, sigchld, Flags, kill, last_status, wexitstatus,
  sighandler, handle_signals,
}

-- A signal that ends the daemon: SIGINT, SIGTERM, and SIGCHLD where the last child that is waited for has returned
-- FAND_SERVER_EXIT.
abbrev pub IsStop : Signal → Type 0
IsStop sigint = Unit
IsStop sigterm = Unit
IsStop sigpipe = ⊥
IsStop sighup = ⊥
IsStop (sigchld statuses status) = wexitstatus (last_status statuses status) ≡ fand_server_exit

-- One of the signals ends the daemon.
pub data HasStop : List Signal → Type 0 where
  here : {s : Signal} {signals : List Signal} → IsStop s → HasStop (s ∷ signals)
  there : {s : Signal} {signals : List Signal} → HasStop signals → HasStop (s ∷ signals)

sighandler_dead : (f : Flags) (s : Signal) → f.alive ≡ false → (sighandler f s).alive ≡ false
unfolding sighandler kill
sighandler_dead f sigint dead = refl
sighandler_dead f sigterm dead = refl
sighandler_dead f sigpipe dead = dead
sighandler_dead f sighup dead = dead
sighandler_dead f (sigchld statuses status) dead = ground arith

sighandler_stop : (f : Flags) (s : Signal) → IsStop s → (sighandler f s).alive ≡ false
unfolding sighandler kill
sighandler_stop f sigint e = refl
sighandler_stop f sigterm e = refl
sighandler_stop f sigpipe e = absurd e
sighandler_stop f sighup e = absurd e
sighandler_stop f (sigchld statuses status) e = ground arith

pub handle_signals_dead :
    (f : Flags) (signals : List Signal) → f.alive ≡ false → (handle_signals f signals).alive ≡ false
unfolding handle_signals
handle_signals_dead f [] dead = dead
handle_signals_dead f (s ∷ signals) dead =
    handle_signals_dead (sighandler f s) signals (sighandler_dead f s dead)

pub handle_signals-HasStop :
    (f : Flags) (signals : List Signal) → HasStop signals → (handle_signals f signals).alive ≡ false
unfolding handle_signals
handle_signals-HasStop f [] has = elim has [ ]
handle_signals-HasStop f (s ∷ signals) (here e) =
    handle_signals_dead (sighandler f s) signals (sighandler_stop f s e)
handle_signals-HasStop f (s ∷ signals) (there later) =
    handle_signals-HasStop (sighandler f s) signals later
