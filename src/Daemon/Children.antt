-- ===== src/Daemon/Children.antt =====
-- The end of the children that serve clients: src/fand/server.c and the handler of SIGCHLD in src/fand/daemon.c.
use amdgpu_fand.Base.{
  ℕ, zero, suc, ◌*◌, ◌≤◌, ◌≡◌, refl, sym, subst, arith, List, [], ◌∷◌, ◌++◌, ◌==◌, false,
  if◌then◌else◌, inl, inr, ℤ, pos, negsuc,
}
use amdgpu_fand.Serialize.Outcome.{ret, Ensures}
use amdgpu_fand.Fanctrl.{FandConfig}
use amdgpu_fand.Server.{Session, Served, recv_and_respond, send_status, fand_server_exit}
use amdgpu_fand.Server.Responses.{IsSession}
use amdgpu_fand.Request.Exit.{exit-Sends}
use amdgpu_fand.Server.Exit.{IsAccepted, recv_and_respond_cases}
use amdgpu_fand.Daemon.{sigchld, Flags, kill, last_status, wexitstatus, sighandler}

-- The status that waitpid gives for a child that has returned an exit code.
abbrev pub wait_status : ℕ → ℕ
wait_status code = code * 256

-- The exit code of an exit request holds whether the response is sent or not.
send_status_exit : (answer : ℤ) → send_status fand_server_exit answer ≡ fand_server_exit
unfolding send_status
send_status_exit (pos n) = refl
send_status_exit (negsuc zero) = refl
send_status_exit (negsuc (suc n)) = refl

last_status_end :
    (earlier : List ℕ) (final status : ℕ) → last_status (earlier ++ (final ∷ [])) status ≡ final
unfolding last_status
last_status_end [] final status = refl
last_status_end (next ∷ earlier) final status = last_status_end earlier final next

wait_status_code : (code : ℕ) → code ≤ 255 → wexitstatus (wait_status code) ≡ code
unfolding wexitstatus
wait_status_code code h = omega arith

sighandler_code :
    (f : Flags) (earlier : List ℕ) (status code : ℕ)
    → code ≤ 255
    → sighandler f (sigchld (earlier ++ (wait_status code ∷ [])) status)
      ≡ (if code == fand_server_exit then kill f else f)
unfolding sighandler
sighandler_code f earlier status code h =
    rw (last_status_end earlier (wait_status code) status, wait_status_code code h) refl

-- The handler of SIGCHLD, where the child that has returned `code` is the last one that its call waits for.
abbrev pub child_ended : Flags → List ℕ → ℕ → ℕ → Flags
child_ended f earlier status code =
    sighandler f (sigchld (earlier ++ (wait_status code ∷ [])) status)

-- From a client, of whom one byte has arrived, to the handler of SIGCHLD, where the buffer of the response has its
-- 48 bytes and the child that serves the client is the last one that the handler waits for: where an exit request passes the server's check, the child ends with a status on which the handler
-- clears the flag that keeps the daemon alive and changes nothing else; where there is no such request, the handler
-- leaves every flag as it is, whatever the child returns.
pub sighandler-recv_and_respond :
    (f : Flags) (s : Session) (config : FandConfig) (earlier : List ℕ) (status : ℕ)
    → IsSession s
    → (IsAccepted s
        → Ensures
            (λ served. child_ended f earlier status served.status ≡ record f { alive = false })
            (recv_and_respond s config))
      × (¬ IsAccepted s
          → (served : Served) → recv_and_respond s config ≡ ret served
          → child_ended f earlier status served.status ≡ f)
unfolding kill
sighandler-recv_and_respond f s config earlier status ok = (
  λ (req, peer).
      subst
        (Ensures
          (λ served. child_ended f earlier status served.status ≡ record f { alive = false }))
        (sym (exit-Sends s config ok req peer))
        (rw (send_status_exit (s.send (2 ∷ 0 ∷ [])))
          (sighandler_code f earlier status fand_server_exit (omega arith))),
  λ other served e. elim (recv_and_respond_cases s config served e) [
    | inr accepted ↦ absurd (other accepted)
    | inl low ↦
        rw (sighandler_code f earlier status served.status (omega arith)) (ground (arith, low))
  ],
)
