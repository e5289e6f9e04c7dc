-- ===== src/Process/Setup.antt =====
-- process-server/src/setup_teardown.c, what process_server.c does around the loops, and
-- process-server/src/api_functions.c.
use scalable_server.Process.Child.{c_run_child_process, zero_child}
use scalable_server.Process.Parent.{p_run_poll_loop, close_fd_report_undefined_error}
use scalable_server.Core.Api.{on_so, CoreObject}
use scalable_server.Prelude.{
  [], ◌∷◌, zero, ltb, ◌==◌, if◌then◌else◌, none, pos, some, suc, get_or, true, Option, set,
  replicate, ℤ, ℕ,
}
use Prim.Native.Nat.{suc, ℕ}
use scalable_server.Os.{
  text, log_line, sem_unlink, log_file, listen, close, domain_write, ignore, bind, fail,
  domain_read, ok, pipe_write, socketpair, no_address, or_clean_up, fork, only_pollin, calloc, put,
  pipe, sem_close, sem_open, socket, focus, call, non_null, give_up, get, check, no_pollfd,
  set_errno, ◌>>=◌, ◌>>◌, pure, SockaddrIn, Sem, M, Platform, Errno,
}
use scalable_server.Process.State.{
  connection_queue, max_connections, pollfds_size, num_child_processes, Child, ChildStruct, Parent,
  StateObject, ParentStruct,
}

-- `errno = err_save; return -1`, the errno that `e` left, if it left one.
abbrev pub fail_with : {S A : Type 0} → Errno → M S A
fail_with e = set_errno e >>= λ _. give_up

-- calloc(1, sizeof(struct parent_struct))
abbrev pub zero_parent : ParentStruct
zero_parent = record {
  pollfds = replicate pollfds_size no_pollfd;
  client_addrs = replicate max_connections no_address;
  num_connections = 0;
}

abbrev pub zero_state : StateObject
zero_state = record {
  child_pids = replicate num_child_processes 0;
  domain_fds = (pos 0, pos 0);
  c_to_p_pipe_fds = (pos 0, pos 0);
  parent = none;
  child = none;
  struct_pointer = 0;
}

-- What `p_open_process_server_for_listen` and `p_setup_parent` store in the first two pollfds.
abbrev pub watch : ℕ → ℤ → ParentStruct → ParentStruct
watch i number parent = record parent {
  pollfds =
      set parent.pollfds i
        (record (get_or parent.pollfds i no_pollfd) { fd = number; events = only_pollin });
}

-- The state that a parent's loop reaches; GOGO_PROCESS is 1 from the setup on.
abbrev pub as_parent : StateObject → ParentStruct → Parent
as_parent so parent = record {
  domain_fds = so.domain_fds;
  c_to_p_pipe_fds = so.c_to_p_pipe_fds;
  parent = parent;
  gogo_process = true;
}

abbrev pub as_child : StateObject → ChildStruct → Child
as_child so child = record {
  domain_fds = so.domain_fds;
  c_to_p_pipe_fds = so.c_to_p_pipe_fds;
  child = child;
  gogo_process = true;
}

module _ (os : Platform) where
  -- The state object, once it is in the core object.
  unfoldable pub setup_process_state : M (CoreObject StateObject) (Unit {0})
  setup_process_state = do
    so ← non_null (← call os (calloc 1))
    co ← get
    put (record co { so = some zero_state })

  -- One `sem_open`; `none` is SEM_FAILED.
  unfoldable pub open_semaphore : Sem → ℕ → M StateObject (Option Errno)
  open_semaphore name value = do
    opened ← call os (sem_open name value)
    elim opened [ ok _ ↦ pure none | fail e ↦ pure (some e) ]

  unfoldable pub close_semaphores : {S : Type 0} → M S (Unit {0})
  close_semaphores = do
    call os (sem_close pipe_write) >>= ignore
    call os (sem_close domain_read) >>= ignore
    call os (sem_close domain_write) >>= ignore
    call os (sem_close log_file) >>= ignore
    call os (sem_unlink pipe_write) >>= ignore
    call os (sem_unlink domain_read) >>= ignore
    call os (sem_unlink domain_write) >>= ignore
    call os (sem_unlink log_file) >>= ignore

  unfoldable pub open_semaphores : M StateObject (Unit {0})
  open_semaphores = do
    pipe_write_sem ← open_semaphore pipe_write 1
    domain_read_sem ← open_semaphore domain_read 0
    domain_write_sem ← open_semaphore domain_write 1
    log_sem ← open_semaphore log_file 1
    elim (last_of pipe_write_sem domain_read_sem domain_write_sem log_sem) [
      | none ↦ pure tt
      | some e ↦ do close_semaphores; fail_with e
    ]
    where
      -- What errno holds after the four calls, if one of them failed.
      last_of : Option Errno → Option Errno → Option Errno → Option Errno → Option Errno
      last_of a b c (some e) = some e
      last_of a b (some e) none = some e
      last_of a (some e) none none = some e
      last_of a none none none = a

  unfoldable pub open_pipe_semaphores_domain_sockets : M StateObject (Unit {0})
  open_pipe_semaphores_domain_sockets = do
    ends ← check (← call os pipe)
    s ← get
    put (record s { c_to_p_pipe_fds = (pos ends.0, pos ends.1) })
    open_semaphores
    pair ← check (← call os socketpair)
    t ← get
    put (record t { domain_fds = (pos pair.0, pos pair.1) })

  unfoldable pub c_setup_child : M StateObject (Unit {0})
  c_setup_child = do
    s ← get
    put (record s { parent = none })
    pointer ← non_null (← call os (calloc 1))
    close_fd_report_undefined_error os s.c_to_p_pipe_fds.0
    close_fd_report_undefined_error os s.domain_fds.1
    put (record s {
      parent = none;
      child = some zero_child;
      struct_pointer = pointer;
      c_to_p_pipe_fds = (pos 0, s.c_to_p_pipe_fds.1);
      domain_fds = (s.domain_fds.0, pos 0);
    })

  -- The descriptor that the parent listens on.
  unfoldable pub p_open_process_server_for_listen : SockaddrIn → M StateObject ℕ
  p_open_process_server_for_listen listen_addr = do
    fd ← check (← call os socket)
    bound ←
        or_clean_up (← call os (bind (pos fd) listen_addr)) (call os (close (pos fd)) >>= ignore)
    listened ←
        or_clean_up (← call os (listen (pos fd) connection_queue))
          (call os (close (pos fd)) >>= ignore)
    pure fd

  unfoldable pub p_setup_parent : SockaddrIn → M StateObject (Unit {0})
  p_setup_parent listen_addr = do
    s ← get
    put (record s { parent = none })
    pointer ← non_null (← call os (calloc 1))
    close_fd_report_undefined_error os s.c_to_p_pipe_fds.1
    close_fd_report_undefined_error os s.domain_fds.0
    let closed = record s {
      parent = some zero_parent;
      child = none;
      struct_pointer = pointer;
      c_to_p_pipe_fds = (s.c_to_p_pipe_fds.0, pos 0);
      domain_fds = (pos 0, s.domain_fds.1);
    }
    put closed
    fd ← p_open_process_server_for_listen listen_addr
    put (record closed {
      parent = some (watch 1 closed.c_to_p_pipe_fds.0 (watch 0 (pos fd) zero_parent));
    })

  -- The loop of `fork_child_processes`, from child `c`; the result is the last `pid`.
  unfoldable pub fork_from : ℕ → ℕ → ℕ → M StateObject ℕ
  fork_from zero c pid = pure pid
  fork_from (suc rounds) c pid = do
    new ← check (← call os fork)
    s ← get
    put (record s { child_pids = set s.child_pids c new })
    if new == 0 then (c_setup_child >>= λ _. pure 0) else fork_from rounds (suc c) new

  unfoldable pub fork_child_processes : SockaddrIn → M StateObject (Unit {0})
  fork_child_processes listen_addr = do
    s ← get
    put (record s { child_pids = replicate num_child_processes 0 })
    pid ← fork_from num_child_processes 0 0
    if ltb 0 pid then p_setup_parent listen_addr else pure tt

  unfoldable pub setup_process_server : M (CoreObject StateObject) (Unit {0})
  setup_process_server = do
    call os (
        log_line (
          text
            "process id,local file descriptor,parent file descriptor,ipv4 address,port number,bytes read,start timestamp,end timestamp,elapsed time (s),time index"
          ∷ []))
    setup_process_state
    on_so open_pipe_semaphores_domain_sockets
    co ← get
    on_so (fork_child_processes co.listen_addr)

  unfoldable pub run_process_server : ℕ → M StateObject (Unit {0})
  run_process_server rounds = do
    so ← get
    elim so.parent [
      | some parent ↦
          focus (λ s. as_parent s parent) (λ (t : Parent). record so { parent = some t.parent })
            (p_run_poll_loop os rounds)
      | none ↦ elim so.child [
        | some child ↦
            focus (λ s. as_child s child) (λ (t : Child). record so { child = some t.child })
              (c_run_child_process os rounds)
        | none ↦ pure tt
      ]
    ]
