-- ===== src/Poll/Ending.antt =====
-- The event loop of poll-server/src/poll_server.c ends once a signal comes.
use Prim.Native.Nat.{suc, ℕ}
use scalable_server.Prelude.{
  refl, ◌-◌, List, ◌∷◌, inr, inl, true, Bool, ◌<◌, get_or, false, ◌+◌, ◌≡◌, length, zero, ◌≤◌,
  arith, Bool-cases, suc, ℕ,
}
use scalable_server.Poll.Progress.{
  Modest, poll_accept-Makes, poll_remove_connection-Makes, poll_recv_and_log-Makes,
}
use scalable_server.Poll.State.{Server, max_connections, reset_revents}
use scalable_server.Poll.Loop.{
  handle_slot, comm_slot, comm_from, poll_comm, end_gogo_handler, running, handle_activity,
  poll_round, poll_loop,
}
use scalable_server.Os.{
  ebadf, no_error, eintr, report, ok, other_error, more, fail, fault, poll, Events, err, is_hung_up,
  did, Ret, ret, no_pollfd, pure, resume, put, is_pollin, ◌>>=◌, get, pending_signal, Res, Machine,
  Platform, Ends, Makes, Signalled, resume-Makes,
}

module _ (os : Platform) (modest : Modest os) where
  handle_slot-Makes : (p : ℕ) (w : Machine Server) → Makes 0 w (handle_slot os p w)
  unfolding handle_slot
  handle_slot-Makes p w = elim (Bool-cases (is_pollin (get_or w.st.pollfds p no_pollfd).revents)) [
    | inl ready ↦
        simp ready (poll_recv_and_log-Makes os modest (get_or w.st.pollfds p no_pollfd).fd p w)
    | inr quiet ↦ elim (Bool-cases (is_hung_up (get_or w.st.pollfds p no_pollfd).revents)) [
      | inl gone ↦ simp (quiet, gone) (poll_remove_connection-Makes os (p - 1) w)
      | inr calm ↦ simp (quiet, calm) (omega arith)
    ]
  ]

  comm_slot-Makes : (p : ℕ) (w : Machine Server) → Makes 0 w (comm_slot os p w)
  unfolding comm_slot
  comm_slot-Makes p w =
      resume-Makes 0 0 w (handle_slot os p w) (λ _. get >>= λ s. put (reset_revents p s))
        (handle_slot-Makes p w) (λ _ v. omega arith)

  comm_from-Makes : (rounds p : ℕ) (w : Machine Server) → Makes 0 w (comm_from os rounds p w)
  unfolding comm_from
  comm_from-Makes zero p w = omega arith
  comm_from-Makes (suc rounds) p w =
      resume-Makes 0 0 w (comm_slot os p w) (λ _. comm_from os rounds (suc p)) (comm_slot-Makes p w)
        (λ _. comm_from-Makes rounds (suc p))

  handle_activity-Makes : (w : Machine Server) → Makes 0 w (handle_activity os w)
  unfolding handle_activity poll_comm
  handle_activity-Makes w =
      elim (Bool-cases (is_pollin (get_or w.st.pollfds 0 no_pollfd).revents)) [
        | inl listens ↦ simp listens (poll_accept-Makes os w)
        | inr quiet ↦ simp quiet (comm_from-Makes max_connections 1 w)
      ]

  poll_round-Makes : (w : Machine Server) → Makes 1 w (poll_round os w)
  unfolding poll_round
  poll_round-Makes w = go (os.answer w.trace (poll w.st.pollfds)) refl
    where
      finish :
          (v : Machine Server) (r : Res (Unit {0}) × Machine Server)
          → length v.trace ≡ 1 + length w.trace
          → Makes 0 v r
          → Makes 1 w (resume r (λ _. pure true))
      finish v (ret x, u) one h = omega arith
      finish v (err, u) one h = tt
      finish v (fault, u) one h = tt
      finish v (more, u) one h = h

      go :
          (a : Ret (List Events))
          → os.answer w.trace (poll w.st.pollfds) ≡ a
          → Makes 1 w (poll_round os w)
      go (fail eintr) same = simp same (omega arith)
      go (fail no_error) same = simp same tt
      go (fail ebadf) same = simp same tt
      go (fail (other_error n)) same = simp same tt
      go (ok reports) same =
          let v = record w {
            trace = did (poll w.st.pollfds) (ok reports) ∷ w.trace;
            st = record w.st { pollfds = report reports w.st.pollfds };
          } in
          simp same (finish v (handle_activity os v) (omega arith) (handle_activity-Makes v))

  -- One round, and then `rounds` more unless a signal has come.
  poll_loop-once :
      (rounds : ℕ) (w : Machine Server)
      → ((u : Machine Server)
          → os.answer w.trace pending_signal ≡ false
          → length w.trace < length u.trace
          → Ends (poll_loop os rounds u))
      → Ends (poll_loop os (suc rounds) w)
  unfolding poll_loop running end_gogo_handler
  poll_loop-once rounds w next = elim (Bool-cases (os.answer w.trace pending_signal)) [
    | inl signalled ↦ simp signalled tt
    | inr quiet ↦ elim (Bool-cases w.st.gogo_poll) [
      | inr stopped ↦ simp (quiet, stopped) tt
      | inl on ↦
          simp (quiet, on)
            (again quiet (record w { trace = did pending_signal false ∷ w.trace })
              (poll_round os (record w { trace = did pending_signal false ∷ w.trace }))
              (omega arith)
              (poll_round-Makes (record w { trace = did pending_signal false ∷ w.trace })))
    ]
  ]
    where
      again :
          os.answer w.trace pending_signal ≡ false
          → (v : Machine Server) (r : Res Bool × Machine Server)
          → length v.trace ≡ 1 + length w.trace
          → Makes 1 v r
          → Ends (resume r (elim [ true ↦ poll_loop os rounds | false ↦ pure tt ]))
      again quiet v (ret true, u) one h = next u quiet (omega arith)
      again quiet v (ret false, u) one h = tt
      again quiet v (err, u) one h = tt
      again quiet v (fault, u) one h = tt
      again quiet v (more, u) one h = h

  -- Where every call returns, no client announces 2 ^ 32 - 1 bytes, and each test of the flag after the n-th call finds
  -- that a signal has come, the event loop ends, given more rounds than calls are missing to n: every message that is
  -- received ends, each round makes a call, and the loop is left at such a test at the latest.
  pub poll_loop-Ends :
      (n : ℕ)
      → Signalled os n
      → (rounds : ℕ) (w : Machine Server) → n ≤ rounds + length w.trace
      → Ends (poll_loop os (suc rounds) w)
  poll_loop-Ends n signal zero w enough =
      poll_loop-once zero w λ u quiet longer. absurd (grind (arith, signal w.trace (omega arith)))
  poll_loop-Ends n signal (suc rounds) w enough =
      poll_loop-once (suc rounds) w λ u quiet longer. poll_loop-Ends n signal rounds u (omega arith)
