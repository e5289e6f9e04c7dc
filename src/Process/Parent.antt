-- ===== src/Process/Parent.antt =====
-- The parent's half of process-server/src/process_server.c.
use scalable_server.Process.State.{
  reenable, p_get_pollfd_index, forget_connection, save_connection, disable, reset_revents,
  max_connections, Parent,
}
use scalable_server.Prelude.{
  none, Option, some, true, false, zero, get_or, suc, if◌then◌else◌, Bool, ℕ, ℤ,
}
use scalable_server.Os.{
  report, domain_read, sendmsg, ignore, pipe_write, eintr, no_error, domain_write, sem_post, ebadf,
  sem_wait, set_errno, is_hung_up, uninitialised, ok, no_pollfd, give_up, is_pollin, sigterm, fail,
  pending_signal, close, sigaction, sigint, cmsg_firsthdr, poll, put, accept, read_int, get, check,
  call, out_of_rounds, pure, ◌>>◌, ◌>>=◌, M, Signal, Platform,
}

-- What `read` leaves in a variable that held `junk`.
abbrev pub number_or : ℤ → Option ℤ → ℤ
number_or junk (some n) = n
number_or junk none = junk

module _ (os : Platform) where
  -- A bad descriptor is not a problem; any other failure is reported on stderr.
  unfoldable pub close_fd_report_undefined_error : {S : Type 0} → ℤ → M S (Unit {0})
  close_fd_report_undefined_error fd = do
    closed ← call os (close fd)
    elim closed [
      | ok _ ↦ pure tt
      | fail e ↦ elim e [ ebadf ↦ set_errno no_error | e' ↦ set_errno e' ]
    ]

  unfoldable pub setup_signal_handler : {S : Type 0} → Signal → M S (Unit {0})
  setup_signal_handler signal = do installed ← check (← call os (sigaction signal)); pure tt

  unfoldable pub p_accept_new_connection : M Parent (Unit {0})
  p_accept_new_connection = do
    s ← get
    accepted ← check (← call os (accept (get_or s.pollfds 0 no_pollfd).fd))
    put (record s {
      parent = save_connection (p_get_pollfd_index s.pollfds) accepted.0 accepted.1 s.parent;
    })

  -- The number read, or what the variable held if none came.
  unfoldable pub p_read_pipe_reenable_fd : M Parent (Unit {0})
  p_read_pipe_reenable_fd = do
    s ← get
    bytes_read ← call os (read_int s.c_to_p_pipe_fds.0)
    junk ← uninitialised os
    call os (sem_post pipe_write) >>= ignore
    number ← check bytes_read
    t ← get
    put (record t {
      parent = record t.parent { pollfds = reenable (number_or (os.int32 junk) number) t.pollfds };
    })

  unfoldable pub p_send_to_child : ℤ → M Parent (Unit {0})
  p_send_to_child fd = do
    s ← get
    header ← call os cmsg_firsthdr
    if header then pure tt else give_up
    waited ← call os (sem_wait domain_write)
    elim waited [
      | fail e ↦ set_errno e >> elim e [ eintr ↦ pure tt | e' ↦ give_up ]
      | ok _ ↦ do
        bytes_sent ← check (← call os (sendmsg s.domain_fds.1 fd fd))
        call os (sem_post domain_read) >>= ignore
    ]

  unfoldable pub p_remove_connection : ℕ → M Parent (Unit {0})
  p_remove_connection p = do
    s ← get
    close_fd_report_undefined_error (get_or s.pollfds p no_pollfd).fd
    put (record s { parent = forget_connection p s.parent })

  unfoldable pub disable_pollfd : ℕ → M Parent (Unit {0})
  disable_pollfd p = do
    s ← get
    put (record s { parent = record s.parent { pollfds = disable p s.pollfds } })

  -- What the loop of `p_handle_socket_action` does about the events of one pollfd.
  unfoldable pub handle_pollfd : ℕ → M Parent (Unit {0})
  handle_pollfd p = do
    s ← get
    let pollfd = get_or s.pollfds p no_pollfd
    if is_pollin pollfd.revents
        then (p_send_to_child pollfd.fd >>= λ _. disable_pollfd p)
        else if is_hung_up pollfd.revents
        then p_remove_connection p
        else pure tt

  -- The body of that loop.
  unfoldable pub socket_action : ℕ → M Parent (Unit {0})
  socket_action p = handle_pollfd p >>= λ _. (do
    s ← get
    put (record s { parent = record s.parent { pollfds = reset_revents p s.pollfds } }))

  -- `rounds` are left, the next one for `p`.
  unfoldable pub socket_actions_from : ℕ → ℕ → M Parent (Unit {0})
  socket_actions_from zero p = pure tt
  socket_actions_from (suc rounds) p = socket_action p >>= λ _. socket_actions_from rounds (suc p)

  unfoldable pub p_handle_socket_action : M Parent (Unit {0})
  p_handle_socket_action = socket_actions_from max_connections 2

  -- Action on the listening socket, on the pipe, or on the clients.
  unfoldable pub p_handle_activity : M Parent (Unit {0})
  p_handle_activity = do
    s ← get
    if is_pollin (get_or s.pollfds 0 no_pollfd).revents
        then p_accept_new_connection
        else if is_pollin (get_or s.pollfds 1 no_pollfd).revents
        then p_read_pipe_reenable_fd
        else p_handle_socket_action

  unfoldable pub end_gogo_handler : M Parent (Unit {0})
  end_gogo_handler = do s ← get; put (record s { gogo_process = false })

  -- The test of the loop; a signal that came in the meantime has run its handler.
  unfoldable pub running : M Parent Bool
  running = do
    signalled ← call os pending_signal
    if signalled then end_gogo_handler else pure tt
    s ← get
    pure s.gogo_process

  -- The body of the loop; `false` is `return 0` in its middle.
  unfoldable pub poll_round : M Parent Bool
  poll_round = do
    s ← get
    polled ← call os (poll s.pollfds)
    elim polled [
      | fail e ↦ do set_errno e; elim e [ eintr ↦ pure false | e' ↦ give_up ]
      | ok reports ↦ do
        put (record s { parent = record s.parent { pollfds = report reports s.pollfds } })
        p_handle_activity
        pure true
    ]

  unfoldable pub poll_loop : ℕ → M Parent (Unit {0})
  poll_loop zero = out_of_rounds
  poll_loop (suc rounds) = running >>= elim [
    | false ↦ pure tt
    | true ↦ poll_round >>= elim [ true ↦ poll_loop rounds | false ↦ pure tt ]
  ]

  unfoldable pub p_run_poll_loop : ℕ → M Parent (Unit {0})
  p_run_poll_loop rounds = do
    setup_signal_handler sigint
    setup_signal_handler sigterm
    poll_loop rounds
