-- ===== src/Controller/Invariant.antt =====
-- The invariant of the controller's state over the whole of `handle` (client-controller/src/handle.c).
mod Sending
pub use Sending.*
use Prim.Native.Nat.{suc, ℕ}
use scalable_server.Prelude.{
  some, none, pos, take, Option, if◌then◌else◌, ◌==◌, inr, false, arith, inl, Option-cases,
  Bool-cases, refl, ◌≡◌, [], true, drop, ◌&&◌, ◌∷◌, length, zero, suc, Bool, List, ℤ, ℕ,
}
use scalable_server.Controller.Handle.{
  send_started, run_line, wait_started, handle, handle_round, stdin_result, accept_result, line_max,
  start_command, first_line, States, eqb_text, Loop, handle_stdin, poll_ready, stdin_ready,
  accept_ready, handle_accept, run_command, handle_loop, signal_handler, quits, wait_duration,
}
use scalable_server.Controller.State.{connected, Controller}
use scalable_server.Controller.Util.{write_loop, write_fully}
use scalable_server.Controller.Connection.{
  data_parts, is_some, start, send_start, send_data_to, send_each, send_all, send_data,
}
use scalable_server.Os.{
  uninitialised, sigint, sigaction, ignore, read, overlay, accept, SockaddrIn, is_set, more, fault,
  pending_signal, sleep, err, ret, call, did, ok, fail, pure, ◌>>◌, put, write, get, Ret, Res,
  ◌>>=◌, >>=-keeps, Machine, attempt, Platform, M,
}
use scalable_server.Controller.Accepting.{Accepted, IsValid, handle_accept-Accepted}

module _ (os : Platform) where
  quits-Keeps : Keeps (quits os)
  unfolding quits signal_handler
  quits-Keeps w valid = elim (Bool-cases (os.answer w.trace pending_signal)) [
    | inl signalled ↦
        rw signalled (record { fds_length = valid.fds_length; conns_bound = valid.conns_bound })
    | inr quiet ↦ rw quiet valid
  ]

  wait_duration-Keeps : (left : ℕ) → Keeps (wait_duration os left)
  unfolding wait_duration
  wait_duration-Keeps zero w valid = valid
  wait_duration-Keeps (suc left) w valid =
      >>=-Keeps (quits os)
        (elim [ true ↦ pure tt | false ↦ call os (sleep 1) >>= λ _. wait_duration os left ])
        quits-Keeps (go (wait_duration-Keeps left)) w valid
    where
      go :
          Keeps (wait_duration os left)
          → (b : Bool)
          → Keeps
              (elim b [ true ↦ pure tt | false ↦ call os (sleep 1) >>= λ _. wait_duration os left ])
      go ih true v h = h
      go ih false v h =
          ih (record v { trace = did (sleep 1) (os.answer v.trace (sleep 1)) ∷ v.trace }) h

  handle_accept-Keeps : Keeps (handle_accept os)
  handle_accept-Keeps w valid =
      go (os.answer w.trace (accept w.st.listen_fd)) (handle_accept os w)
        (handle_accept-Accepted os w valid)
    where
      go :
          (a : Ret (ℕ × SockaddrIn)) (r : Res States × Machine Controller)
          → Accepted os a w r
          → IsValid r.1.st.so
      go (fail e) r (_, same) = rw same valid
      go (ok (fd, addr)) r (inl (room, success, joined, valid')) = valid'
      go (ok (fd, addr)) r (inr (full, outside, same)) = rw same valid

  wait_started-Keeps : (sent : Bool) → Keeps (wait_started os sent)
  unfolding wait_started
  wait_started-Keeps sent w =
      if-Keeps sent (wait_duration os w.st.wait_period_sec >>= λ _. pure States.started)
        (pure States.error)
        (>>=-Keeps (wait_duration os w.st.wait_period_sec) (λ _. pure States.started)
          (wait_duration-Keeps w.st.wait_period_sec) (λ _ v h. h))
        (λ v h. h) w

  send_started-Keeps : (begun : Bool) → Keeps (send_started os begun)
  unfolding send_started
  send_started-Keeps begun =
      if-Keeps begun (send_data os >>= wait_started os) (pure States.error)
        (>>=-Keeps (send_data os) (wait_started os) (send_data-Keeps os) wait_started-Keeps)
        λ v h. h

  run_command-Keeps : (line : List ℕ) → Keeps (run_command os line)
  unfolding run_command
  run_command-Keeps line =
      if-Keeps (eqb_text line start_command) (send_start os >>= send_started os)
        (pure States.success)
        (>>=-Keeps (send_start os) (send_started os) (send_start-Keeps os) send_started-Keeps)
        λ v h. h

  run_line-Keeps : (line : Option (List ℕ)) → Keeps (run_line os line)
  unfolding run_line
  run_line-Keeps none w valid = valid
  run_line-Keeps (some line) w valid = run_command-Keeps line w valid

  handle_stdin-Keeps : Keeps (handle_stdin os)
  unfolding handle_stdin
  handle_stdin-Keeps w valid = go (os.answer w.trace (read (pos 0) line_max)) refl
    where
      after : List ℕ → Machine Controller
      after input = record w { trace = did (read (pos 0) line_max) (ok input) ∷ w.trace }

      go :
          (a : Ret (List ℕ))
          → os.answer w.trace (read (pos 0) line_max) ≡ a
          → IsValid (handle_stdin os w).1.st.so
      go (fail e) same = simp same valid
      go (ok input) same = simp same (
          run_line-Keeps
            (first_line (take line_max (overlay input (os.scratch (after input).trace))))
            (after input) valid)

  poll_ready-Keeps : (l : Loop) → Keeps (poll_ready os l)
  unfolding poll_ready
  poll_ready-Keeps l w valid = grind arith

  accept_ready-Keeps : (l : Loop) → Keeps (accept_ready os l)
  unfolding accept_ready
  accept_ready-Keeps l =
      if-Keeps (is_set l.listen_revents)
        (handle_accept os >>= λ result. pure (accept_result os l result)) (pure l)
        (>>=-Keeps (handle_accept os) (λ result. pure (accept_result os l result))
          handle_accept-Keeps λ _ v h. h)
        λ v h. h

  stdin_ready-Keeps : (l : Loop) → Keeps (stdin_ready os l)
  unfolding stdin_ready
  stdin_ready-Keeps l =
      if-Keeps (is_set l.stdin_revents)
        (handle_stdin os >>= λ result. pure (stdin_result os l result)) (pure l)
        (>>=-Keeps (handle_stdin os) (λ result. pure (stdin_result os l result)) handle_stdin-Keeps
          λ _ v h. h)
        λ v h. h

  handle_round-Keeps : (l : Loop) → Keeps (handle_round os l)
  unfolding handle_round
  handle_round-Keeps l =
      >>=-Keeps (poll_ready os l) (λ l'. accept_ready os l' >>= stdin_ready os) (poll_ready-Keeps l)
        λ l'.
          >>=-Keeps (accept_ready os l') (stdin_ready os) (accept_ready-Keeps l') stdin_ready-Keeps

  handle_loop-Keeps : (rounds : ℕ) (l : Loop) → Keeps (handle_loop os rounds l)
  unfolding handle_loop
  handle_loop-Keeps zero l = λ w h. h
  handle_loop-Keeps (suc rounds) l =
      once
        (>>=-Keeps (handle_round os l) (handle_loop os rounds) (handle_round-Keeps l)
          (handle_loop-Keeps rounds))
        l.exit
    where
      go_on :
          Keeps (handle_round os l >>= handle_loop os rounds)
          → (b : Bool)
          → Keeps (elim b [
            | true ↦ pure l.result
            | false ↦ handle_round os l >>= handle_loop os rounds
          ])
      go_on ih true w h = h
      go_on ih false w h = ih w h

      once :
          Keeps (handle_round os l >>= handle_loop os rounds)
          → (b : Bool)
          → Keeps (elim b [
            | true ↦ pure l.result
            | false ↦ quits os >>= elim [
              | true ↦ pure l.result
              | false ↦ handle_round os l >>= handle_loop os rounds
            ]
          ])
      once ih true w h = h
      once ih false w h =
          >>=-Keeps (quits os)
            (elim [ true ↦ pure l.result | false ↦ handle_round os l >>= handle_loop os rounds ])
            quits-Keeps (go_on ih) w h

  -- The model leaves the state as it was before a write outside the array.
  handle-Keeps :
      (rounds : ℕ) (w : Machine Controller) → IsValid w.st.so → IsValid (handle os rounds w).1.st.so
  unfolding handle
  handle-Keeps rounds w valid =
      >>=-Keeps (call os (sigaction sigint) >>= ignore)
        (λ _. uninitialised os >>= λ junk. get >>= λ s.
          put (record s { sig_quit = false }) >>= λ _. handle_loop os rounds (begin junk))
        (λ v h. go v h (os.answer v.trace (sigaction sigint)))
        (λ _ v h.
          handle_loop-Keeps rounds (begin (os.scratch v.trace))
            (record v { st = record v.st { sig_quit = false } })
            (record { fds_length = h.fds_length; conns_bound = h.conns_bound }))
        w valid
    where
      begin : List ℕ → Loop
      begin junk = record {
        listen_revents = os.events junk;
        stdin_revents = os.events junk;
        result = os.int32 junk;
        exit = false;
      }

      go :
          (v : Machine Controller)
          → IsValid v.st.so
          → (a : Ret (Unit {0}))
          → IsValid
              (ignore a (record v {
                trace = did (sigaction sigint) (os.answer v.trace (sigaction sigint)) ∷ v.trace;
              })).1.st.so
      go v h (ok _) = h
      go v h (fail e) = h

  -- The state is valid at the end, unless that is undefined behaviour.
  abbrev pub StaysValid : {A : Type 0} → Res A × Machine Controller → Type 0
  StaysValid (ret a, v) = IsValid v.st.so
  StaysValid (err, v) = IsValid v.st.so
  StaysValid (fault, v) = Unit
  StaysValid (more, v) = IsValid v.st.so

  -- From a valid state, over any number of rounds of `handle`, whatever the clients, the user and the calls do,
  -- the state is valid at the end, unless the run comes to undefined behaviour, as it does when a 501st client is
  -- accepted: the array of clients has its length, and no more clients are counted than it holds.
  pub handle-StaysValid :
      (rounds : ℕ) (w : Machine Controller) → IsValid w.st.so → StaysValid (handle os rounds w)
  handle-StaysValid rounds w valid = go (handle os rounds w) (handle-Keeps rounds w valid)
    where
      go : {A : Type 0} (r : Res A × Machine Controller) → IsValid r.1.st.so → StaysValid r
      go (ret a, v) h = h
      go (err, v) h = h
      go (fault, v) h = tt
      go (more, v) h = h
