-- ===== src/OneToOne/Setup.antt =====
-- Setup and teardown of one-to-one/src/one_to_one.c, and one-to-one/src/api_functions.c.
use scalable_server.OneToOne.Serve.{serve}
use scalable_server.OneToOne.State.{zero_state, Server}
use scalable_server.Core.Api.{on_so, ServerStates, CoreObject, ApiFunctions}
use Prim.Native.Nat.{ℕ}
use scalable_server.Os.{
  listen, ignore, bind, or_clean_up, socket, no_error, give_up, ebadf, set_errno, uninitialised,
  attempt, fail, ok, put, sigint, sigaction, calloc, pipe, close, pure, check, get, call, ◌>>◌,
  ◌>>=◌, SockaddrIn, M, Platform,
}
use scalable_server.Prelude.{◌-◌, ◌^◌, ◌==◌, true, if◌then◌else◌, pos, some, none, Bool, ℤ, ℕ}

abbrev pub connection_queue : ℕ
connection_queue = 10

module _ (os : Platform) where
  unfoldable pub setup_state : M (CoreObject Server) (Unit {0})
  setup_state = do
    allocated ← call os (calloc 1)
    co ← get
    put (record co {
      so = elim allocated [
        | none ↦ none
        | some pointer ↦ some (record { so = zero_state; self_pipe = (pos 0, pos 0) })
      ];
    })

  -- On success the function ends with no `return`: what the caller compares with -1 is indeterminate.
  unfoldable pub set_signal_handler : M Server Bool
  set_signal_handler = do
    result ← call os (sigaction sigint)
    junk ← uninitialised os
    elim result [ fail e ↦ set_errno e >> pure true | ok _ ↦ pure (os.word32 junk == 2 ^ 32 - 1) ]

  unfoldable pub open_server_for_listen : SockaddrIn → M Server (Unit {0})
  open_server_for_listen listen_addr = do
    ends ← check (← call os pipe)
    s ← get
    put (record s { self_pipe = (pos ends.0, pos ends.1) })
    failed ← set_signal_handler
    if failed then give_up else pure tt
    fd ← check (← call os socket)
    bound ←
        or_clean_up (← call os (bind (pos fd) listen_addr)) (call os (close (pos fd)) >>= ignore)
    listened ←
        or_clean_up (← call os (listen (pos fd) connection_queue))
          (call os (close (pos fd)) >>= ignore)
    t ← get
    put (record t { so = record t.so { listen_fd = pos fd } })

  -- `close`, where a bad descriptor is not a problem and any other failure is reported.
  unfoldable pub close_reporting : ℤ → M Server (Unit {0})
  close_reporting fd = do
    status ← call os (close fd)
    elim status [
      | ok _ ↦ pure tt
      | fail e ↦ elim e [ ebadf ↦ set_errno no_error | e' ↦ set_errno e' ]
    ]

  unfoldable pub destroy_state : M Server (Unit {0})
  destroy_state = do s ← get; close_reporting s.listen_fd; close_reporting s.client_fd

  unfoldable pub initialize_server : M (CoreObject Server) ServerStates
  initialize_server = do
    setup_state
    co ← get
    elim co.so [
      | none ↦ pure ServerStates.error
      | some _ ↦ do
        opened ← attempt (on_so (open_server_for_listen co.listen_addr))
        elim opened [ none ↦ pure ServerStates.error | some _ ↦ pure ServerStates.run_server ]
    ]

  unfoldable pub run_server : ℕ → ℕ → M (CoreObject Server) ServerStates
  run_server rounds messages = on_so (serve os rounds messages)

  unfoldable pub close_server : M (CoreObject Server) ServerStates
  close_server = do on_so destroy_state; pure ServerStates.exit

  -- The library as the core loads it.
  unfoldable pub one_to_one_api : ℕ → ℕ → ApiFunctions Server
  one_to_one_api rounds messages = record {
    initialize = initialize_server;
    run = run_server rounds messages;
    close = close_server;
  }
