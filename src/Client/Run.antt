-- ===== src/Client/Run.antt =====
-- client/src/run.c, and `run` of client/src/main.c.
use scalable_server.Client.Thread.{start_threads}
use scalable_server.Client.Util.{read_fully}
use scalable_server.Client.Setup.{destroy_state, init_state}
use scalable_server.Client.State.{Client, InitStateParams}
use scalable_server.Prelude.{
  List, get_or, not, ◌||◌, ◌&&◌, is_zero, ◌++◌, [], pos, some, ◌∷◌, ◌^◌, negsuc, none, ◌+◌, ◌%◌,
  zero, true, false, suc, ◌==◌, if◌then◌else◌, Bool, ℤ, ℕ,
}
use scalable_server.Os.{
  is_set, count_set, ok, is_eintr, set_errno, fail, undefined, non_null, ignore, only_pollin,
  sigint, sleep, pending_signal, no_events, sigaction, poll, put, malloc, uninitialised, get, call,
  attempt, ◌>>=◌, out_of_rounds, pure, ◌>>◌, M, Events, Platform,
}
use Prim.Native.Nat.{suc, ℕ}

-- enum states
pub data States : Type 0 where
  error success end : States

abbrev pub start : ℕ
start = 1

abbrev pub stop : ℕ
stop = 2

-- The variables of `run_controller`: `fds[0].revents`, `result` and `exit`.
pub record Loop : Type 0 where
  pub revents : Events
  pub result : ℤ
  pub exit : Bool

module _ (os : Platform) where
  -- malloc() for a string of `size` bytes and a NUL, in 32-bit arithmetic.
  unfoldable pub allocate_ip : ℕ → M Client ℕ
  allocate_ip size = do
    allocated ← call os (malloc ((size + 1) % 2 ^ 32))
    junk ← uninitialised os
    s ← get
    put (record s {
      so = record s.so {
        server_ip = elim allocated [
          | none ↦ none
          | some pointer ↦ some (record { pointer = pointer; bytes = junk })
        ];
      };
    })
    non_null allocated

  -- The NUL is put after what was read.
  unfoldable pub end_ip : ℕ → ℕ → List ℕ → M Client (Unit {0})
  end_ip size pointer ip = do
    if (size + 1) % 2 ^ 32 == 0 then undefined else pure tt
    t ← get
    put (record t {
      so = record t.so { server_ip = some (record { pointer = pointer; bytes = ip ++ 0 ∷ [] }) };
    })

  unfoldable pub fill_ip : ℕ → ℕ → M Client (Unit {0})
  fill_ip size pointer = do
    s ← get
    read_fully os s.controller_fd ((size + 1) % 2 ^ 32) size >>= end_ip size pointer

  -- The address of the server; the size is that in host order.
  unfoldable pub read_ip : ℕ → M Client (Unit {0})
  read_ip size = allocate_ip size >>= fill_ip size

  -- The size in host order is kept, and malloc() is given the one in network order.
  unfoldable pub allocate_contents : ℕ → M Client ℕ
  allocate_contents room = do
    s ← get
    put (record s { so = record s.so { data_size = os.ntohl room % 2 ^ 32 } })
    allocated ← call os (malloc room)
    junk ← uninitialised os
    t ← get
    put (record t {
      so = record t.so {
        contents = elim allocated [
          | none ↦ none
          | some pointer ↦ some (record { pointer = pointer; bytes = junk })
        ];
      };
    })
    non_null allocated

  unfoldable pub end_contents : ℕ → List ℕ → M Client (Unit {0})
  end_contents pointer bytes = do
    u ← get
    put (record u {
      so = record u.so { contents = some (record { pointer = pointer; bytes = bytes }) };
    })

  unfoldable pub fill_contents : ℕ → ℕ → M Client (Unit {0})
  fill_contents room pointer = do
    t ← get
    read_fully os t.controller_fd room (os.ntohl room % 2 ^ 32) >>= end_contents pointer

  -- The data, in a buffer of `room` bytes.
  unfoldable pub read_contents : ℕ → M Client (Unit {0})
  read_contents room = allocate_contents room >>= fill_contents room

  unfoldable pub keep_port : List ℕ → M Client (Unit {0})
  keep_port net_port = do
    t ← get
    put (record t { so = record t.so { server_port = os.ntohs (os.word16 net_port) % 2 ^ 16 } })

  unfoldable pub read_port : M Client (Unit {0})
  read_port = do s ← get; read_fully os s.controller_fd 2 2 >>= keep_port

  unfoldable pub read_sized_ip : M Client (Unit {0})
  read_sized_ip = do
    s ← get
    read_fully os s.controller_fd 4 4 >>= λ size. read_ip (os.ntohl (os.word32 size) % 2 ^ 32)

  unfoldable pub read_sized_contents : M Client (Unit {0})
  read_sized_contents = do
    s ← get
    read_fully os s.controller_fd 4 4 >>= λ size. read_contents (os.word32 size)

  unfoldable pub read_data : M Client (Unit {0})
  read_data = read_port >>= λ _. read_sized_ip >>= λ _. read_sized_contents

  unfoldable pub handle_command : ℕ → M Client States
  handle_command command =
      if command == start
      then (do
        started ← attempt (read_data >>= λ _. start_threads os)
        elim started [ none ↦ pure States.error | some _ ↦ pure States.success ])
      else if command == stop
      then pure States.end
      else pure States.error

  unfoldable pub handle_controller : M Client States
  handle_controller = do
    s ← get
    command ← attempt (read_fully os s.controller_fd 2 2)
    elim command [
      | none ↦ pure States.error
      | some bytes ↦ handle_command (os.ntohs (os.word16 bytes) % 2 ^ 16)
    ]

  -- `poll`, and the test of its result.
  unfoldable pub poll_controller : Loop → M Client Loop
  poll_controller l = do
    s ← get
    polled ←
        call os
          (poll (record { fd = s.controller_fd; events = only_pollin; revents = l.revents } ∷ []))
    elim polled [
      | fail e ↦
          set_errno e >> pure (record l { result = negsuc 0; exit = l.exit || not (is_eintr e) })
      | ok reports ↦
          pure (record l { revents = get_or reports 0 no_events; result = pos (count_set reports) })
    ]

  -- `if (fds[0].revents && POLLIN)`
  unfoldable pub command_ready : Loop → M Client Loop
  command_ready l =
      if is_set l.revents
      then (handle_controller >>= elim [
        | States.error ↦ pure (record { revents = no_events; result = negsuc 0; exit = true })
        | States.success ↦ pure (record l { revents = no_events; result = pos 0 })
        | States.end ↦ pure (record { revents = no_events; result = pos 0; exit = true })
      ])
      else pure l

  unfoldable pub controller_loop : ℕ → Loop → M Client ℤ
  controller_loop zero l = out_of_rounds
  controller_loop (suc rounds) l = elim l.exit [
    | true ↦ pure l.result
    | false ↦ poll_controller l >>= λ l'. command_ready l' >>= controller_loop rounds
  ]

  -- `revents` and `result` are not initialised.
  unfoldable pub run_controller : ℕ → M Client ℤ
  run_controller rounds = do
    junk ← uninitialised os
    controller_loop rounds
        (record { revents = os.events junk; result = os.int32 junk; exit = false })

  unfoldable pub signal_handler : M Client (Unit {0})
  signal_handler = do s ← get; put (record s { sig_quit = true })

  -- A read of `sig_quit`; a signal that came in the meantime has run its handler.
  unfoldable pub quits : M Client Bool
  quits = do
    signalled ← call os pending_signal
    if signalled then signal_handler else pure tt
    s ← get
    pure s.sig_quit

  -- The loop, for the seconds that are left.
  unfoldable pub wait_duration : ℕ → M Client (Unit {0})
  wait_duration zero = pure tt
  wait_duration (suc left) =
      quits >>= elim [ true ↦ pure tt | false ↦ call os (sleep 1) >>= λ _. wait_duration left ]

  unfoldable pub run_standalone : M Client ℤ
  run_standalone = do
    call os (sigaction sigint) >>= ignore
    started ← attempt (start_threads os)
    s ← get
    elim started [
      | none ↦ pure (negsuc 0)
      | some _ ↦ wait_duration s.wait_period_sec >>= λ _. pure (pos 0)
    ]

  unfoldable pub run_state : ℕ → M Client ℤ
  run_state rounds = do s ← get; if s.standalone then run_standalone else run_controller rounds

  -- `run` of main.c, the settings given; `true` is 0.
  unfoldable pub run : ℕ → InitStateParams → M Client Bool
  run rounds params = do
    init_result ← attempt (init_state os params)
    elim init_result [
      | none ↦ pure false
      | some _ ↦ do
        handle_result ← run_state rounds
        destroy_result ← destroy_state os
        pure (is_zero handle_result && destroy_result)
    ]
