-- ===== src/Process/Child.antt =====
-- A child's half of process-server/src/process_server.c.
use scalable_server.Process.Parent.{
  close_fd_report_undefined_error, setup_signal_handler, number_or,
}
use scalable_server.Process.State.{Child, ChildStruct}
use scalable_server.Prelude.{
  [], ◌∷◌, ◌^◌, ◌==◌, length, ◌%◌, not, true, zero, none, ◌+◌, ◌&&◌, ltb, false, if◌then◌else◌,
  some, suc, Bool, ℤ, pos, Option, ℕ,
}
use scalable_server.Os.{
  seconds, date, ip, ignore, descriptor, domain_write, sem_post, malloc, number, write_int,
  non_null, log_line, recvmsg, give_up, eintr, send, set_errno, sigterm, free, fail, overlay,
  sigint, domain_read, pipe_write, clock, uninitialised, getpeername, log_file, interrupted, pure,
  put, check, ◌>>◌, ok, time, sem_wait, recv, pending_signal, getpid, get, ◌>>=◌, call, undefined,
  out_of_rounds, no_address, M, Platform,
}

-- sizeof(buffer), of a pointer
abbrev pub pointer_size : ℕ
pointer_size = 8

-- memset to 0
abbrev pub zero_child : ChildStruct
zero_child = record { client_fd_parent = pos 0; client_fd_local = pos 0; client_addr = no_address }

module _ (os : Platform) where
  -- What `recvmsg` and `getpeername` write in the child struct; without a control message the code
  -- dereferences NULL.
  unfoldable pub store_descriptor : Option ℤ × Option ℕ → M Child (Unit {0})
  store_descriptor (sent, none) = undefined
  store_descriptor (sent, some fd) = do
    s ← get
    let child = record s.child {
      client_fd_parent = number_or s.child.client_fd_parent sent;
      client_fd_local = pos fd;
    }
    put (record s { child = child })
    addr ← check (← call os (getpeername (pos fd)))
    put (record s { child = record child { client_addr = addr } })

  unfoldable pub c_get_file_description_from_domain_socket : M Child (Unit {0})
  c_get_file_description_from_domain_socket = do
    s ← get
    waited ← call os (sem_wait domain_read)
    elim waited [
      | fail e ↦ set_errno e >> elim e [ eintr ↦ pure tt | e' ↦ give_up ]
      | ok _ ↦ do
        bytes_recv ← call os (recvmsg s.domain_fds.0)
        call os (sem_post domain_write) >>= ignore
        message ← check bytes_recv
        store_descriptor message
    ]

  -- The buffer, and the number of bytes to read.
  unfoldable pub c_get_message_length : M Child (ℕ × ℕ)
  c_get_message_length = do
    s ← get
    header ← check (← call os (recv s.client_fd_local 4))
    junk ← uninitialised os
    let bytes_to_read = os.ntohl (os.word32 (overlay header junk)) % 2 ^ 32
    buffer ← non_null (← call os (malloc (bytes_to_read + 1)))
    pure (buffer, bytes_to_read)

  -- The body of the loop that receives the message: at most eight bytes, written at `bytes_read` in a
  -- buffer of `bytes_to_read + 1` bytes.
  unfoldable pub recv_once : ℤ → ℕ → ℕ → ℕ → M Child ℕ
  recv_once fd buffer bytes_to_read bytes_read = call os (recv fd pointer_size) >>= elim [
    | ok message ↦
        if ltb (bytes_to_read + 1) (bytes_read + length message)
        then undefined
        else pure (length message)
    | fail e ↦ do set_errno e; call os (free buffer); give_up
  ]

  unfoldable pub recv_loop : ℕ → ℤ → ℕ → ℕ → ℕ → ℕ → M Child ℕ
  recv_loop zero fd buffer bytes_to_read bytes bytes_read = out_of_rounds
  recv_loop (suc rounds) fd buffer bytes_to_read bytes bytes_read =
      if ltb bytes_read bytes_to_read && not (bytes == 0)
      then (recv_once fd buffer bytes_to_read bytes_read >>= λ n.
          recv_loop rounds fd buffer bytes_to_read n ((bytes_read + n) % 2 ^ 32))
      else pure bytes_read

  unfoldable pub c_inform_parent_recv_finished : M Child (Unit {0})
  c_inform_parent_recv_finished = do
    s ← get
    waited ← call os (sem_wait pipe_write)
    elim waited [
      | fail e ↦ set_errno e >> elim e [ eintr ↦ pure tt | e' ↦ give_up ]
      | ok _ ↦ do
        bytes_written ← check (← call os (write_int s.c_to_p_pipe_fds.1 s.client_fd_parent))
        pure tt
    ]

  -- Both calls of ctime() use one buffer, which has the end time.
  unfoldable pub c_log : ℕ → ℕ → ℕ → ℕ → ℕ → M Child (Unit {0})
  c_log bytes start_time end_time start_granular end_granular = do
    s ← get
    pid ← call os getpid
    waited ← call os (sem_wait log_file)
    elim waited [
      | fail e ↦ set_errno e >> elim e [ eintr ↦ pure tt | e' ↦ give_up ]
      | ok _ ↦ do
        call os (
            log_line (
              number pid
              ∷ descriptor s.client_fd_local
              ∷ descriptor s.client_fd_parent
              ∷ ip s.client_addr.sin_addr
              ∷ number (os.ntohs s.client_addr.sin_port)
              ∷ number bytes
              ∷ date end_time
              ∷ date end_time
              ∷ seconds start_granular end_granular
              ∷ number end_granular
              ∷ []))
        call os (sem_post log_file) >>= ignore
    ]

  unfoldable pub c_recv_log_notify_parent_respond : M Child (Unit {0})
  c_recv_log_notify_parent_respond = do
    s ← get
    message ← c_get_message_length
    start_time ← call os time
    start_granular ← call os clock
    bytes_read ← recv_loop (suc (suc message.1)) s.client_fd_local message.0 message.1 1 0
    end_granular ← call os clock
    end_time ← call os time
    c_inform_parent_recv_finished
    c_log bytes_read start_time end_time start_granular end_granular
    call os (free message.0)
    sent ← check (← call os (send s.client_fd_local (os.bytes32 (os.htonl bytes_read))))
    pure tt

  unfoldable pub c_end_gogo_handler : M Child (Unit {0})
  c_end_gogo_handler = do s ← get; put (record s { gogo_process = false })

  unfoldable pub c_running : M Child Bool
  c_running = do
    signalled ← call os pending_signal
    if signalled then c_end_gogo_handler else pure tt
    s ← get
    pure s.gogo_process

  -- The body of the loop of `c_receive_and_handle_messages`.
  unfoldable pub c_handle_message : M Child (Unit {0})
  c_handle_message = do
    s ← get
    put (record s { child = zero_child })
    c_get_file_description_from_domain_socket
    skip ← interrupted
    if skip then pure tt else c_recv_log_notify_parent_respond
    t ← get
    close_fd_report_undefined_error os t.client_fd_local

  unfoldable pub c_receive_and_handle_messages : ℕ → M Child (Unit {0})
  c_receive_and_handle_messages zero = out_of_rounds
  c_receive_and_handle_messages (suc rounds) = c_running >>= elim [
    | false ↦ pure tt
    | true ↦ c_handle_message >>= λ _. c_receive_and_handle_messages rounds
  ]

  unfoldable pub c_run_child_process : ℕ → M Child (Unit {0})
  c_run_child_process rounds = do
    pid ← call os getpid
    setup_signal_handler os sigint
    setup_signal_handler os sigterm
    c_receive_and_handle_messages rounds
