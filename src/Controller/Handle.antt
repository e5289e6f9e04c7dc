-- ===== src/Controller/Handle.antt =====
-- client-controller/src/handle.c, and `run` of client-controller/src/main.c.
use scalable_server.Controller.Setup.{destroy_state, init_state}
use scalable_server.Controller.Connection.{send_data, send_start}
use scalable_server.Controller.State.{max_conns, Controller, StateObject, InitStateParams}
use Prim.Native.Nat.{suc, ℕ}
use scalable_server.Os.{
  count_set, is_set, undefined, overlay, is_eintr, ok, ignore, set_errno, uninitialised, sigint,
  fail, put, pending_signal, sleep, sigaction, accept, read, poll, get, no_events, call, attempt,
  pure, out_of_rounds, ◌>>=◌, only_pollin, ◌>>◌, Pollfd, M, Platform, Events,
}
use scalable_server.Prelude.{
  ◌+◌, set, get_or, take, ltb, not, is_zero, negsuc, false, pos, ◌&&◌, zero, true, some, suc, ◌==◌,
  if◌then◌else◌, [], ◌||◌, none, Bool, ◌∷◌, Option, ℤ, List, ℕ,
}

-- enum states
pub data States : Type 0 where
  error success started : States

abbrev pub line_max : ℕ
line_max = 2048

-- START_COMMAND
abbrev pub start_command : List ℕ
start_command = b's' ∷ b't' ∷ b'a' ∷ b'r' ∷ b't' ∷ []

-- A byte at which strcspn(buff, "\n\r") stops.
abbrev pub ends_line : ℕ → Bool
ends_line c = c == 0 || (c == 10 || c == 13)

-- The string that is left in the buffer; `none` if no byte of the buffer ends the line.
abbrev pub first_line : List ℕ → Option (List ℕ)
first_line [] = none
first_line (c ∷ cs) =
    let rest = first_line cs in
    if ends_line c then some [] else elim rest [ none ↦ none | some line ↦ some (c ∷ line) ]

-- strcmp(s, t) == 0
abbrev pub eqb_text : List ℕ → List ℕ → Bool
eqb_text [] [] = true
eqb_text (x ∷ xs) (y ∷ ys) = x == y && eqb_text xs ys
eqb_text _ _ = false

-- The variables of `handle`: `fds[0].revents`, `fds[1].revents`, `result` and `exit`.
pub record Loop : Type 0 where
  pub listen_revents : Events
  pub stdin_revents : Events
  pub result : ℤ
  pub exit : Bool

module _ (os : Platform) where
  unfoldable pub signal_handler : M Controller (Unit {0})
  signal_handler = do s ← get; put (record s { sig_quit = true })

  -- A read of `sig_quit`; a signal that came in the meantime has run its handler.
  unfoldable pub quits : M Controller Bool
  quits = do
    signalled ← call os pending_signal
    if signalled then signal_handler else pure tt
    s ← get
    pure s.sig_quit

  unfoldable pub handle_accept : M Controller States
  handle_accept = do
    s ← get
    accepted ← call os (accept s.listen_fd)
    elim accepted [
      | fail e ↦ set_errno e >> pure States.error
      | ok (fd, addr) ↦
          if ltb s.num_conns max_conns
          then (do
            let accepted_fds = set s.accepted_fds s.num_conns (pos fd)
            put (record s {
              so = record s.so { accepted_fds = accepted_fds; num_conns = s.num_conns + 1 };
            })
            pure States.success)
          else undefined
    ]

  -- The loop, for the seconds that are left.
  unfoldable pub wait_duration : ℕ → M Controller (Unit {0})
  wait_duration zero = pure tt
  wait_duration (suc left) =
      quits >>= elim [ true ↦ pure tt | false ↦ call os (sleep 1) >>= λ _. wait_duration left ]

  -- What follows `send_data`.
  unfoldable pub wait_started : Bool → M Controller States
  wait_started sent = do
    s ← get
    if sent
        then (wait_duration s.wait_period_sec >>= λ _. pure States.started)
        else pure States.error

  -- What follows `send_start`.
  unfoldable pub send_started : Bool → M Controller States
  send_started begun = if begun then (send_data os >>= wait_started) else pure States.error

  -- What `handle_stdin` does with the line.
  unfoldable pub run_command : List ℕ → M Controller States
  run_command line =
      if eqb_text line start_command then (send_start os >>= send_started) else pure States.success

  -- `none` is a buffer in which no byte ends the line.
  unfoldable pub run_line : Option (List ℕ) → M Controller States
  run_line none = undefined
  run_line (some line) = run_command line

  unfoldable pub handle_stdin : M Controller States
  handle_stdin = do
    nread ← call os (read (pos 0) line_max)
    junk ← uninitialised os
    elim nread [
      | fail e ↦ set_errno e >> pure States.error
      | ok input ↦ run_line (first_line (take line_max (overlay input junk)))
    ]

  -- The switch on the result of `handle_accept`.
  unfoldable pub accept_result : Loop → States → Loop
  accept_result l States.error = record l {
    listen_revents = no_events;
    result = negsuc 0;
    exit = true;
  }
  accept_result l States.success = record l {
    listen_revents = no_events;
    result = pos 0;
    exit = false;
  }
  accept_result l States.started = record l {
    listen_revents = no_events;
    result = pos 1;
    exit = false;
  }

  -- `if (fds[0].revents && POLLIN)`
  unfoldable pub accept_ready : Loop → M Controller Loop
  accept_ready l =
      if is_set l.listen_revents
      then (handle_accept >>= λ result. pure (accept_result l result))
      else pure l

  -- The switch on the result of `handle_stdin`.
  unfoldable pub stdin_result : Loop → States → Loop
  stdin_result l States.error = record l {
    stdin_revents = no_events;
    result = negsuc 0;
    exit = true;
  }
  stdin_result l States.success = record l { stdin_revents = no_events; result = pos 0 }
  stdin_result l States.started = record l {
    stdin_revents = no_events;
    result = pos 0;
    exit = true;
  }

  -- `if (fds[1].revents && POLLIN)`
  unfoldable pub stdin_ready : Loop → M Controller Loop
  stdin_ready l =
      if is_set l.stdin_revents
      then (handle_stdin >>= λ result. pure (stdin_result l result))
      else pure l

  abbrev pub watched : StateObject → Loop → List Pollfd
  watched s l =
      record { fd = s.listen_fd; events = only_pollin; revents = l.listen_revents }
      ∷ record { fd = pos 0; events = only_pollin; revents = l.stdin_revents }
      ∷ []

  -- `poll`, and the test of its result.
  unfoldable pub poll_ready : Loop → M Controller Loop
  poll_ready l = do
    s ← get
    polled ← call os (poll (watched s.so l))
    elim polled [
      | fail e ↦
          set_errno e >> pure (record l { result = negsuc 0; exit = l.exit || not (is_eintr e) })
      | ok reports ↦ pure (record l {
        listen_revents = get_or reports 0 no_events;
        stdin_revents = get_or reports 1 no_events;
        result = pos (count_set reports);
      })
    ]

  -- The body of the loop.
  unfoldable pub handle_round : Loop → M Controller Loop
  handle_round l = poll_ready l >>= λ l'. accept_ready l' >>= stdin_ready

  unfoldable pub handle_loop : ℕ → Loop → M Controller ℤ
  handle_loop zero l = out_of_rounds
  handle_loop (suc rounds) l = elim l.exit [
    | true ↦ pure l.result
    | false ↦
        quits >>= elim [ true ↦ pure l.result | false ↦ handle_round l >>= handle_loop rounds ]
  ]

  -- `revents` and `result` are not initialised. A failure of sigaction() is only printed.
  unfoldable pub handle : ℕ → M Controller ℤ
  handle rounds = do
    call os (sigaction sigint) >>= ignore
    junk ← uninitialised os
    s ← get
    put (record s { sig_quit = false })
    handle_loop rounds (record {
      listen_revents = os.events junk;
      stdin_revents = os.events junk;
      result = os.int32 junk;
      exit = false;
    })

  -- `run` of main.c, the settings given; `true` is 0.
  unfoldable pub run : ℕ → InitStateParams → M Controller Bool
  run rounds params = do
    init_result ← attempt (init_state os params)
    elim init_result [
      | none ↦ pure false
      | some _ ↦ do
        handle_result ← handle rounds
        destroy_result ← destroy_state os
        pure (is_zero handle_result && destroy_result)
    ]
