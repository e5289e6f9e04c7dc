-- ===== src/Poll/Setup.antt =====
-- Setup and teardown of poll-server/src/poll_server.c, and poll-server/src/api_functions.c.
use scalable_server.Prelude.{ℕ, ℤ, pos, List, [], ◌∷◌, none, some}
use scalable_server.Os.{
  Platform, M, SockaddrIn, pure, ◌>>=◌, ◌>>◌, get, put, check, ignore, or_clean_up, attempt, focus,
  call, socket, bind, listen, close, calloc,
}
use scalable_server.Core.Api.{ServerStates, CoreObject, on_so, ApiFunctions}
use scalable_server.Poll.State.{StateObject, Server, connection_queue, zero_state, listening}
use scalable_server.Poll.Loop.{close_fd_report_undefined_error, run_poll_server}

module _ (os : Platform) where
  -- `co->so = setup_poll_state(co->mm)`; NULL if the allocation fails.
  unfoldable pub setup_poll_state : M (CoreObject StateObject) (Unit {0})
  setup_poll_state = do
    allocated ← call os (calloc 1)
    co ← get
    put (record co { so = elim allocated [ none ↦ none | some pointer ↦ some zero_state ] })

  unfoldable pub open_poll_server_for_listen : SockaddrIn → M StateObject (Unit {0})
  open_poll_server_for_listen listen_addr = do
    fd ← check (← call os socket)
    bound ←
        or_clean_up (← call os (bind (pos fd) listen_addr)) (call os (close (pos fd)) >>= ignore)
    listened ←
        or_clean_up (← call os (listen (pos fd) connection_queue))
          (call os (close (pos fd)) >>= ignore)
    so ← get
    put (record so { listen_fd = pos fd })

  -- The loop over `client_fd`.
  unfoldable pub close_all : {S : Type 0} → List ℤ → M S (Unit {0})
  close_all [] = pure tt
  close_all (fd ∷ fds) = close_fd_report_undefined_error os fd >>= λ _. close_all fds

  unfoldable pub destroy_poll_state : M StateObject (Unit {0})
  destroy_poll_state = do
    so ← get
    close_fd_report_undefined_error os so.listen_fd
    close_all so.client_fd

  unfoldable pub initialize_server : M (CoreObject StateObject) ServerStates
  initialize_server = do
    setup_poll_state
    co ← get
    elim co.so [
      | none ↦ pure ServerStates.error
      | some _ ↦ do
        opened ← attempt (on_so (open_poll_server_for_listen co.listen_addr))
        elim opened [ none ↦ pure ServerStates.error | some _ ↦ pure ServerStates.run_server ]
    ]

  unfoldable pub run_server : ℕ → M (CoreObject StateObject) ServerStates
  run_server rounds = do
    finished ← attempt (on_so (focus listening (λ (s : Server). s.so) (run_poll_server os rounds)))
    elim finished [ none ↦ pure ServerStates.error | some _ ↦ pure ServerStates.close_server ]

  unfoldable pub close_server : M (CoreObject StateObject) ServerStates
  close_server = do on_so destroy_poll_state; pure ServerStates.exit

  -- The library as the core loads it, its loop given `rounds`.
  unfoldable pub poll_api : ℕ → ApiFunctions StateObject
  poll_api rounds = record {
    initialize = initialize_server;
    run = run_server rounds;
    close = close_server;
  }
