-- ===== src/Poll/Loop.antt =====
-- The event loop of poll-server/src/poll_server.c: `poll_accept`, `poll_comm`, `execute_poll`.
use scalable_server.Prelude.{
  ℕ, zero, suc, ◌-◌, ℤ, Bool, true, false, [], ◌∷◌, get_or, if◌then◌else◌,
}
use scalable_server.Os.{
  report, Platform, M, no_error, eintr, ebadf, ok, fail, Signal, sigint, sigterm, text, pure,
  give_up, out_of_rounds, ◌>>=◌, ◌>>◌, get, put, check, call, accept, close, poll, sigaction,
  pending_signal, log_line, is_pollin, is_hung_up, no_pollfd, set_errno,
}
use scalable_server.Poll.State.{
  Server, max_connections, get_conn_index, save_connection, forget_connection, reset_revents,
}
use scalable_server.Poll.Receive.{poll_recv_and_log}

module _ (os : Platform) where
  -- A bad descriptor is not a problem; any other failure is reported on stderr.
  unfoldable pub close_fd_report_undefined_error : {S : Type 0} → ℤ → M S (Unit {0})
  close_fd_report_undefined_error fd = do
    closed ← call os (close fd)
    elim closed [
      | ok _ ↦ pure tt
      | fail e ↦ elim e [ ebadf ↦ set_errno no_error | e' ↦ set_errno e' ]
    ]

  unfoldable pub poll_accept : M Server (Unit {0})
  poll_accept = do
    s ← get
    accepted ← check (← call os (accept s.listen_fd))
    put (save_connection (get_conn_index s.client_fd) accepted.0 accepted.1 s)

  unfoldable pub poll_remove_connection : ℕ → M Server (Unit {0})
  poll_remove_connection conn_index = do
    s ← get
    close_fd_report_undefined_error (get_or s.pollfds (suc conn_index) no_pollfd).fd
    put (forget_connection conn_index s)

  -- What the loop of `poll_comm` does about the events of one pollfd.
  unfoldable pub handle_slot : ℕ → M Server (Unit {0})
  handle_slot fd_num = do
    s ← get
    let pollfd = get_or s.pollfds fd_num no_pollfd
    if is_pollin pollfd.revents
        then poll_recv_and_log os pollfd.fd fd_num
        else if is_hung_up pollfd.revents
        then poll_remove_connection (fd_num - 1)
        else pure tt

  -- The body of that loop.
  unfoldable pub comm_slot : ℕ → M Server (Unit {0})
  comm_slot fd_num = handle_slot fd_num >>= λ _. (do s ← get; put (reset_revents fd_num s))

  -- `rounds` are left, the next one for `fd_num`.
  unfoldable pub comm_from : ℕ → ℕ → M Server (Unit {0})
  comm_from zero fd_num = pure tt
  comm_from (suc rounds) fd_num = comm_slot fd_num >>= λ _. comm_from rounds (suc fd_num)

  unfoldable pub poll_comm : M Server (Unit {0})
  poll_comm = comm_from max_connections 1

  unfoldable pub setup_signal_handler : {S : Type 0} → Signal → M S (Unit {0})
  setup_signal_handler signal = do installed ← check (← call os (sigaction signal)); pure tt

  unfoldable pub end_gogo_handler : M Server (Unit {0})
  end_gogo_handler = do s ← get; put (record s { gogo_poll = false })

  -- The test of the loop; a signal that came in the meantime has run its handler.
  unfoldable pub running : M Server Bool
  running = do
    signalled ← call os pending_signal
    if signalled then end_gogo_handler else pure tt
    s ← get
    pure s.gogo_poll

  -- Action on the listening socket, or on the others.
  unfoldable pub handle_activity : M Server (Unit {0})
  handle_activity = do
    s ← get
    if is_pollin (get_or s.pollfds 0 no_pollfd).revents then poll_accept else poll_comm

  -- The body of the loop of `execute_poll`; `false` is `return 0` in its middle.
  unfoldable pub poll_round : M Server Bool
  poll_round = do
    s ← get
    polled ← call os (poll s.pollfds)
    elim polled [
      | fail e ↦ do set_errno e; elim e [ eintr ↦ pure false | e' ↦ give_up ]
      | ok reports ↦ do
        put (record s { pollfds = report reports s.pollfds })
        handle_activity
        pure true
    ]

  unfoldable pub poll_loop : ℕ → M Server (Unit {0})
  poll_loop zero = out_of_rounds
  poll_loop (suc rounds) = do
    go ← running
    elim go [
      | false ↦ pure tt
      | true ↦ do again ← poll_round; elim again [ true ↦ poll_loop rounds | false ↦ pure tt ]
    ]

  unfoldable pub execute_poll : ℕ → M Server (Unit {0})
  execute_poll rounds = do
    setup_signal_handler sigint
    setup_signal_handler sigterm
    poll_loop rounds

  -- After the setup of `pollfds`, which is `listening`.
  unfoldable pub run_poll_server : ℕ → M Server (Unit {0})
  run_poll_server rounds = do
    call os (
        log_line (
          text
            "connection index,file descriptor,ipv4 address,port number,bytes read,start timestamp,end timestamp,elapsed time (s)"
          ∷ []))
    execute_poll rounds
