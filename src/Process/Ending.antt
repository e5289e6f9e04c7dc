-- ===== src/Process/Ending.antt =====
-- The parent's loop of process-server/src/process_server.c ends once a signal comes.
use scalable_server.Process.State.{max_connections, reset_revents, Parent}
use scalable_server.Prelude.{
  Bool, ◌<◌, false, refl, ◌∷◌, inr, inl, get_or, zero, Bool-cases, suc, true, ◌≡◌, length, ◌+◌, ◌≤◌,
  arith, List, ℤ, ℕ,
}
use scalable_server.Os.{
  resume-Makes, Ends, Signalled, Makes, pure, ebadf, no_error, eintr, report, is_hung_up, did, ok,
  other_error, no_pollfd, fail, put, poll, is_pollin, ◌>>=◌, Events, Ret, get, fault, err, resume,
  pending_signal, more, ret, Machine, Platform, Res,
}
use Prim.Native.Nat.{suc, ℕ}
use scalable_server.Process.Parent.{
  p_accept_new_connection, p_read_pipe_reenable_fd, p_send_to_child, p_remove_connection,
  handle_pollfd, socket_action, socket_actions_from, p_handle_socket_action, p_handle_activity,
  poll_round, poll_loop, running, disable_pollfd, close_fd_report_undefined_error, end_gogo_handler,
}

module _ (os : Platform) where
  p_accept_new_connection-Makes : (w : Machine Parent) → Makes 0 w (p_accept_new_connection os w)
  unfolding p_accept_new_connection
  p_accept_new_connection-Makes w = grind arith

  p_read_pipe_reenable_fd-Makes : (w : Machine Parent) → Makes 0 w (p_read_pipe_reenable_fd os w)
  unfolding p_read_pipe_reenable_fd
  p_read_pipe_reenable_fd-Makes w = grind arith

  p_send_to_child-Makes : (fd : ℤ) (w : Machine Parent) → Makes 0 w (p_send_to_child os fd w)
  unfolding p_send_to_child
  p_send_to_child-Makes fd w = grind arith

  p_remove_connection-Makes : (p : ℕ) (w : Machine Parent) → Makes 0 w (p_remove_connection os p w)
  unfolding p_remove_connection close_fd_report_undefined_error
  p_remove_connection-Makes p w = grind arith

  handle_pollfd-Makes : (p : ℕ) (w : Machine Parent) → Makes 0 w (handle_pollfd os p w)
  unfolding handle_pollfd disable_pollfd
  handle_pollfd-Makes p w =
      elim (Bool-cases (is_pollin (get_or w.st.pollfds p no_pollfd).revents)) [
        | inl ready ↦ simp ready (
            resume-Makes 0 0 w (p_send_to_child os (get_or w.st.pollfds p no_pollfd).fd w)
              (λ _. disable_pollfd os p)
              (p_send_to_child-Makes (get_or w.st.pollfds p no_pollfd).fd w) (λ _ v. omega arith))
        | inr quiet ↦ elim (Bool-cases (is_hung_up (get_or w.st.pollfds p no_pollfd).revents)) [
          | inl gone ↦ simp (quiet, gone) (p_remove_connection-Makes p w)
          | inr calm ↦ simp (quiet, calm) (omega arith)
        ]
      ]

  socket_action-Makes : (p : ℕ) (w : Machine Parent) → Makes 0 w (socket_action os p w)
  unfolding socket_action
  socket_action-Makes p w =
      resume-Makes 0 0 w (handle_pollfd os p w)
        (λ _. get >>= λ s.
          put (record s { parent = record s.parent { pollfds = reset_revents p s.pollfds } }))
        (handle_pollfd-Makes p w) (λ _ v. omega arith)

  socket_actions_from-Makes :
      (rounds p : ℕ) (w : Machine Parent) → Makes 0 w (socket_actions_from os rounds p w)
  unfolding socket_actions_from
  socket_actions_from-Makes zero p w = omega arith
  socket_actions_from-Makes (suc rounds) p w =
      resume-Makes 0 0 w (socket_action os p w) (λ _. socket_actions_from os rounds (suc p))
        (socket_action-Makes p w) (λ _. socket_actions_from-Makes rounds (suc p))

  p_handle_activity-Makes : (w : Machine Parent) → Makes 0 w (p_handle_activity os w)
  unfolding p_handle_activity p_handle_socket_action
  p_handle_activity-Makes w =
      elim (Bool-cases (is_pollin (get_or w.st.pollfds 0 no_pollfd).revents)) [
        | inl listens ↦ simp listens (p_accept_new_connection-Makes w)
        | inr quiet ↦ elim (Bool-cases (is_pollin (get_or w.st.pollfds 1 no_pollfd).revents)) [
          | inl reports ↦ simp (quiet, reports) (p_read_pipe_reenable_fd-Makes w)
          | inr calm ↦ simp (quiet, calm) (socket_actions_from-Makes max_connections 2 w)
        ]
      ]

  poll_round-Makes : (w : Machine Parent) → Makes 1 w (poll_round os w)
  unfolding poll_round
  poll_round-Makes w = go (os.answer w.trace (poll w.st.pollfds)) refl
    where
      finish :
          (v : Machine Parent) (r : Res (Unit {0}) × Machine Parent)
          → length v.trace ≡ 1 + length w.trace
          → Makes 0 v r
          → Makes 1 w (resume r (λ _. pure true))
      finish v (ret x, u) one h = omega arith
      finish v (err, u) one h = tt
      finish v (fault, u) one h = tt
      finish v (more, u) one h = h

      go :
          (a : Ret (List Events))
          → os.answer w.trace (poll w.st.pollfds) ≡ a
          → Makes 1 w (poll_round os w)
      go (fail eintr) same = simp same (omega arith)
      go (fail no_error) same = simp same tt
      go (fail ebadf) same = simp same tt
      go (fail (other_error n)) same = simp same tt
      go (ok reports) same =
          let v = record w {
            trace = did (poll w.st.pollfds) (ok reports) ∷ w.trace;
            st = record w.st {
              parent = record w.st.parent { pollfds = report reports w.st.pollfds };
            };
          } in
          simp same (finish v (p_handle_activity os v) (omega arith) (p_handle_activity-Makes v))

  -- One round, and then `rounds` more unless a signal has come.
  poll_loop-once :
      (rounds : ℕ) (w : Machine Parent)
      → ((u : Machine Parent)
          → os.answer w.trace pending_signal ≡ false
          → length w.trace < length u.trace
          → Ends (poll_loop os rounds u))
      → Ends (poll_loop os (suc rounds) w)
  unfolding poll_loop running end_gogo_handler
  poll_loop-once rounds w next = elim (Bool-cases (os.answer w.trace pending_signal)) [
    | inl signalled ↦ simp signalled tt
    | inr quiet ↦ elim (Bool-cases w.st.gogo_process) [
      | inr stopped ↦ simp (quiet, stopped) tt
      | inl on ↦
          simp (quiet, on)
            (again quiet (record w { trace = did pending_signal false ∷ w.trace })
              (poll_round os (record w { trace = did pending_signal false ∷ w.trace }))
              (omega arith)
              (poll_round-Makes (record w { trace = did pending_signal false ∷ w.trace })))
    ]
  ]
    where
      again :
          os.answer w.trace pending_signal ≡ false
          → (v : Machine Parent) (r : Res Bool × Machine Parent)
          → length v.trace ≡ 1 + length w.trace
          → Makes 1 v r
          → Ends (resume r (elim [ true ↦ poll_loop os rounds | false ↦ pure tt ]))
      again quiet v (ret true, u) one h = next u quiet (omega arith)
      again quiet v (ret false, u) one h = tt
      again quiet v (err, u) one h = tt
      again quiet v (fault, u) one h = tt
      again quiet v (more, u) one h = h

  -- Where every call returns, and each test of the flag after the n-th call finds that a signal has come, the
  -- parent's loop ends, given more rounds than calls are missing to n: each round ends and makes a call, and the loop
  -- is left at such a test at the latest.
  pub parent_loop-Ends :
      (n : ℕ)
      → Signalled os n
      → (rounds : ℕ) (w : Machine Parent) → n ≤ rounds + length w.trace
      → Ends (poll_loop os (suc rounds) w)
  parent_loop-Ends n signal zero w enough =
      poll_loop-once zero w λ u quiet longer. absurd (grind (arith, signal w.trace (omega arith)))
  parent_loop-Ends n signal (suc rounds) w enough =
      poll_loop-once (suc rounds) w
        λ u quiet longer. parent_loop-Ends n signal rounds u (omega arith)
