-- ===== src/Server/Setup.antt =====
-- What `server_init` of src/fand/server.c leaves open.
use amdgpu_fand.Base.{
  ℕ, ◌≡◌, ◌<◌, refl, arith, List, true, false, leb, replicate, length, length-replicate, ℤ, pos,
  negsuc, Bool-cases, inl, inr,
}
use amdgpu_fand.Serialize.Outcome.{Ensures}
use amdgpu_fand.Strutils.Copy.{copied, strscpy-copied}
use amdgpu_fand.Server.Socket.{
  Setup, Socket, sun_path_size, closesock, rmsock, listen_socket, bind_socket, server_init,
}
use amdgpu_fand.Watch.{failed}

-- bind has been called and has made the file.
pub record IsBound (s : Setup) (path : List ℕ) : Type 0 where
  pub socket : failed s.socket ≡ false
  pub fits : length path < sun_path_size
  pub bind : failed s.bind ≡ false

-- The file has its mode, and the socket listens.
pub record IsListening (s : Setup) (path : List ℕ) : Type 0 where
  pub bound : IsBound s path
  pub chmod : failed s.chmod ≡ false
  pub listen : failed s.listen ≡ false

-- What a call that fails leaves: the polled descriptor; its own descriptor closed unless close failed;
-- the file that it made removed unless unlink failed, and a file that it did not make.
pub record IsUndone (s : Setup) (path : List ℕ) (pollfd : ℤ) (k : Socket) : Type 0 where
  pub polled : k.pollfd ≡ pollfd
  pub closed : failed s.close ≡ false → k.opened ≡ false
  pub removed : IsBound s path → failed s.unlink ≡ false → k.bound ≡ false
  pub kept : ¬ IsBound s path → k.bound ≡ s.stale

pub data IsSetUp (s : Setup) (path : List ℕ) (pollfd : ℤ) : ℤ × Socket → Type 0 where
  set_up :
      IsListening s path
      → IsSetUp s path pollfd (pos 0, record { opened = true; bound = true; pollfd = s.socket })
  undone :
      (k : Socket)
      → ¬ IsListening s path
      → IsUndone s path pollfd k
      → IsSetUp s path pollfd (negsuc 0, k)

module _ (s : Setup) (path : List ℕ) (pollfd : ℤ) where
  abbrev unbound : Socket
  unbound = record { opened = true; bound = s.stale; pollfd = pollfd }

  abbrev bound : Socket
  bound = record { opened = true; bound = true; pollfd = pollfd }

  -- `closesock` where the file is as it is to be.
  closesock-IsSetUp :
      (k : Socket)
      → ¬ IsListening s path
      → k.pollfd ≡ pollfd
      → (IsBound s path → failed s.unlink ≡ false → k.bound ≡ false)
      → (¬ IsBound s path → k.bound ≡ s.stale)
      → IsSetUp s path pollfd (closesock s k)
  unfolding closesock
  closesock-IsSetUp k silent polled removed kept = elim (Bool-cases (failed s.close)) [
    | inl e ↦ rw e (
        undone k silent
          (record { polled = polled; closed = λ f. cc; removed = removed; kept = kept }))
    | inr e ↦ rw e (
        undone (record k { opened = false }) silent
          (record { polled = polled; closed = λ f. refl; removed = removed; kept = kept }))
  ]

  unbound-IsSetUp : ¬ IsBound s path → IsSetUp s path pollfd (closesock s unbound)
  unbound-IsSetUp absent =
      closesock-IsSetUp unbound (λ l. absent l.bound) refl (λ b f. absurd (absent b)) (λ n. refl)

  rmsock-IsSetUp : IsBound s path → ¬ IsListening s path → IsSetUp s path pollfd (rmsock s bound)
  unfolding rmsock
  rmsock-IsSetUp b silent = elim (Bool-cases (failed s.unlink)) [
    | inl e ↦ rw e (closesock-IsSetUp bound silent refl (λ b' f. cc) (λ n. absurd (n b)))
    | inr e ↦ rw e (
        closesock-IsSetUp (record bound { bound = false }) silent refl (λ b' f. refl)
          (λ n. absurd (n b)))
  ]

  listen_socket-IsSetUp : IsBound s path → IsSetUp s path pollfd (listen_socket s bound)
  unfolding listen_socket
  listen_socket-IsSetUp b = elim (Bool-cases (failed s.chmod)) [
    | inl e ↦ rw e (rmsock-IsSetUp b (λ l. cc (e, l.chmod)))
    | inr e ↦ elim (Bool-cases (failed s.listen)) [
      | inl f ↦ rw (e, f) (rmsock-IsSetUp b (λ l. cc (f, l.listen)))
      | inr f ↦ rw (e, f) (set_up (record { bound = b; chmod = e; listen = f }))
    ]
  ]

  bind_socket-IsSetUp :
      failed s.socket ≡ false
      → IsSetUp s path pollfd (bind_socket s unbound (copied (replicate sun_path_size 0) path 107))
  unfolding bind_socket
  bind_socket-IsSetUp e = elim (Bool-cases (leb (length path) 107)) [
    | inr long ↦ rw long (unbound-IsSetUp (λ b. ground (arith, b.fits)))
    | inl fits ↦ elim (Bool-cases (failed s.bind)) [
      | inl f ↦ rw (fits, f) (unbound-IsSetUp (λ b. cc (f, b.bind)))
      | inr f ↦
          rw (fits, f)
            (listen_socket-IsSetUp (record { socket = e; fits = ground arith; bind = f }))
    ]
  ]

  -- Whatever the system answers, and whatever the length of the path, `server_init` writes nothing outside of the
  -- address. It returns 0 exactly where socket, bind, chmod and listen succeed and the path has less than 108
  -- characters; then the socket is open, its file is there, and it is the one that is polled. Else it returns -1,
  -- the polled descriptor is what it was, the descriptor that was opened is closed unless close fails, the file
  -- that bind made is removed unless unlink fails, and a file that was there before is left as it was where bind
  -- was not reached or failed.
  pub server_init-IsSetUp : Ensures (IsSetUp s path pollfd) (server_init s path pollfd)
  unfolding server_init
  server_init-IsSetUp = elim (Bool-cases (failed s.socket)) [
    | inl e ↦ rw e (
        undone _ (λ l. cc (e, l.bound.socket))
          (record {
            polled = refl;
            closed = λ f. refl;
            removed = λ b f. cc (e, b.socket);
            kept = λ n. refl;
          }))
    | inr e ↦
        rw
          (
            e,
            strscpy-copied (replicate sun_path_size 0) path 107
                (omega (arith, length-replicate {A = ℕ} sun_path_size 0)),
          )
          (bind_socket-IsSetUp e)
  ]
