-- ===== src/Process/Safety.antt =====
-- The parent's loop keeps the invariant, whatever the clients, the children and the calls do.
mod Free
pub use Free.*
use scalable_server.Process.Invariant.{
  reenable-Inv, client_fd, forget_connection-Inv, save_connection-Inv, report-Inv, disable-Inv,
  clients, reset_revents-Inv, listen_events, Inv,
}
use scalable_server.Process.Parent.{
  socket_action, close_fd_report_undefined_error, disable_pollfd, end_gogo_handler,
  p_handle_socket_action, handle_pollfd, p_read_pipe_reenable_fd, setup_signal_handler,
  p_handle_activity, p_accept_new_connection, socket_actions_from, p_send_to_child,
  p_remove_connection, p_run_poll_loop, poll_round, running, poll_loop,
}
use scalable_server.Prelude.{
  Option, ap, inr, ltb→lt, pos, ◌∙◌, ◌∷◌, inl, ltb, zero, Bool-cases, is_zero, is_zero-negate, ◌≤◌,
  if◌then◌else◌, true, sym, arith, false, refl, ◌<◌, ◌≡◌, suc, set, ◌+◌, List, get_or, ℤ,
  get_or-set_cases, ℕ, Bool,
}
use scalable_server.Os.{
  eintr, pipe_write, sem_post, read_int, pure, report-get_or, fail, no_events, report, accept,
  SockaddrIn, ok, Ret, sigterm, poll, sigint, is_pollin, did, >>=-keeps, no_pollfd, Pollfd,
  pending_signal, Calm, Lawful, StdinOpen, only_pollin, Machine, Events, is_hung_up, Signal,
  Platform,
}
use scalable_server.Process.State.{
  set_listen, max_connections, Parent, disable, forget_connection, reset_revents, ParentStruct,
}

module _ (os : Platform) where
  p_accept_new_connection-Inv :
      Lawful os
      → (w : Machine Parent) → Inv w.st.parent
      → w.st.num_connections < max_connections
      → Inv (p_accept_new_connection os w).1.st.parent
  unfolding p_accept_new_connection
  p_accept_new_connection-Inv law w v room = go _ refl
    where
      go :
          (r : Ret (ℕ × SockaddrIn))
          → os.answer w.trace (accept (get_or w.st.pollfds 0 no_pollfd).fd) ≡ r
          → Inv (p_accept_new_connection os w).1.st.parent
      go (ok (n, addr)) e =
          rw (e, p_accept_new_connection)
            (save_connection-Inv w.st.parent n addr v room (law.accept_positive _ _ n addr e))
      go (fail x) e = rw (e, p_accept_new_connection) v

  p_remove_connection-st :
      (p : ℕ) (w : Machine Parent)
      → (p_remove_connection os p w).1.st.parent ≡ forget_connection p w.st.parent
  unfolding p_remove_connection close_fd_report_undefined_error
  p_remove_connection-st p w = ground arith

  p_send_to_child-st : (fd : ℤ) (w : Machine Parent) → (p_send_to_child os fd w).1.st ≡ w.st
  unfolding p_send_to_child
  p_send_to_child-st fd w = ground arith

  p_read_pipe_reenable_fd-Inv :
      (w : Machine Parent) → Inv w.st.parent → Inv (p_read_pipe_reenable_fd os w).1.st.parent
  unfolding p_read_pipe_reenable_fd
  p_read_pipe_reenable_fd-Inv w v = go _ refl _ refl
    where
      go :
          (r : Ret (Option ℤ))
          → os.answer w.trace (read_int w.st.c_to_p_pipe_fds.0) ≡ r
          → (q : Ret (Unit {0}))
          → os.answer (did (read_int w.st.c_to_p_pipe_fds.0) r ∷ w.trace) (sem_post pipe_write) ≡ q
          → Inv (p_read_pipe_reenable_fd os w).1.st.parent
      go (ok n) e (ok _) d = rw (e, d, p_read_pipe_reenable_fd) (reenable-Inv w.st.parent _ v)
      go (ok n) e (fail y) d = rw (e, d, p_read_pipe_reenable_fd) (reenable-Inv w.st.parent _ v)
      go (fail x) e (ok _) d = rw (e, d, p_read_pipe_reenable_fd) v
      go (fail x) e (fail y) d = rw (e, d, p_read_pipe_reenable_fd) v

  -- What holds in the loop of `p_handle_socket_action`.
  abbrev LoopInv : Machine Parent → Type 0
  LoopInv w = Inv w.st.parent × AllCalm w.st.parent

  used_slot :
      (s : ParentStruct) (i : ℕ)
      → AllCalm s
      → is_hung_up (get_or s.pollfds (suc (suc i)) no_pollfd).revents ≡ true
      → is_zero (get_or (clients s) i (pos 0)) ≡ false
  used_slot s i calm up = elim (Bool-cases (is_zero (get_or (clients s) i (pos 0)))) [
    | inl free ↦ cc (calm (suc (suc i)) (ap is_zero (client_fd s i) ∙ free))
    | inr used ↦ used
  ]

  handle_pollfd-Inv :
      (i : ℕ)
      → i < max_connections
      → (w : Machine Parent) → LoopInv w
      → LoopInv (handle_pollfd os (suc (suc i)) w).1
  unfolding handle_pollfd disable_pollfd
  handle_pollfd-Inv i lt w (v, calm) =
      elim (Bool-cases (is_pollin (get_or w.st.pollfds (suc (suc i)) no_pollfd).revents)) [
        | inl readable ↦ rw readable (
            >>=-keeps LoopInv (p_send_to_child os (get_or w.st.pollfds (suc (suc i)) no_pollfd).fd)
              _ w
              (rw (p_send_to_child-st (get_or w.st.pollfds (suc (suc i)) no_pollfd).fd w) (v, calm))
              λ _ _ kept. (
                disable-Inv (sent w i).st.parent i kept.0,
                disable-Calm (sent w i).st.parent (suc (suc i)) kept.1,
              ))
        | inr still ↦
            elim (Bool-cases (is_hung_up (get_or w.st.pollfds (suc (suc i)) no_pollfd).revents)) [
              | inl up ↦
                  rw (still, up, p_remove_connection-st (suc (suc i)) w)
                    (
                      forget_connection-Inv w.st.parent i v lt (used_slot w.st.parent i calm up),
                      forget_connection-Calm w.st.parent (suc (suc i)) calm,
                    )
              | inr quiet ↦ rw (still, quiet) (v, calm)
            ]
      ]
    where
      sent : Machine Parent → ℕ → Machine Parent
      sent u k = (p_send_to_child os (get_or u.st.pollfds (suc (suc k)) no_pollfd).fd u).1

  socket_actions_from-Inv :
      (rounds i : ℕ)
      → rounds + i ≤ max_connections
      → (w : Machine Parent) → LoopInv w
      → LoopInv (socket_actions_from os rounds (suc (suc i)) w).1
  unfolding socket_actions_from socket_action
  socket_actions_from-Inv zero i le w inv = inv
  socket_actions_from-Inv (suc rounds) i le w inv =
      >>=-keeps LoopInv (socket_action os (suc (suc i))) _ w
        (>>=-keeps LoopInv (handle_pollfd os (suc (suc i))) _ w
          (handle_pollfd-Inv i (omega arith) w inv)
          λ _ _ kept. (
            reset_revents-Inv (handled w i).st.parent i kept.0,
            reset_revents-Calm (handled w i).st.parent (suc (suc i)) kept.1,
          ))
        λ _ _ kept. socket_actions_from-Inv rounds (suc i) (omega arith) _ kept
    where
      handled : Machine Parent → ℕ → Machine Parent
      handled u k = (handle_pollfd os (suc (suc k)) u).1

  running-Inv : (w : Machine Parent) → Inv w.st.parent → Inv (running os w).1.st.parent
  unfolding running end_gogo_handler
  running-Inv w v = go (os.answer w.trace pending_signal) refl
    where
      go : (b : Bool) → os.answer w.trace pending_signal ≡ b → Inv (running os w).1.st.parent
      go true e = rw (e, running) v
      go false e = rw (e, running) v

  room_to_accept :
      (s : ParentStruct)
      → Inv s
      → (listen_events s).pollin ≡ true
      → s.num_connections < max_connections
  room_to_accept s v on = elim (Bool-cases (ltb s.num_connections max_connections)) [
    | inl room ↦ ltb→lt _ _ room
    | inr full ↦
        let off : listen_events s ≡ no_events = v.listens ∙ rw full refl in
        cc (ap (λ (e : Events). e.pollin) off)
  ]

  p_handle_activity-Inv :
      Lawful os
      → (w : Machine Parent) → Inv w.st.parent
      → AllCalm w.st.parent
      → (is_pollin (get_or w.st.pollfds 0 no_pollfd).revents ≡ true
          → (listen_events w.st.parent).pollin ≡ true)
      → Inv (p_handle_activity os w).1.st.parent
  unfolding p_handle_activity p_handle_socket_action
  p_handle_activity-Inv law w v calm asked =
      elim (Bool-cases (is_pollin (get_or w.st.pollfds 0 no_pollfd).revents)) [
        | inl new ↦
            rw new (p_accept_new_connection-Inv law w v (room_to_accept w.st.parent v (asked new)))
        | inr old ↦ elim (Bool-cases (is_pollin (get_or w.st.pollfds 1 no_pollfd).revents)) [
          | inl piped ↦ rw (old, piped) (p_read_pipe_reenable_fd-Inv w v)
          | inr quiet ↦
              rw (old, quiet)
                (socket_actions_from-Inv max_connections 0 (omega arith) w (v, calm)).0
        ]
      ]

  poll_round-Inv :
      Lawful os
      → StdinOpen os
      → (w : Machine Parent) → Inv w.st.parent
      → Inv (poll_round os w).1.st.parent
  unfolding poll_round
  poll_round-Inv law quiet w v = go (os.answer w.trace (poll w.st.pollfds)) refl
    where
      polled : List Events → Machine Parent
      polled rs = record {
        trace = did (poll w.st.pollfds) (ok rs) ∷ w.trace;
        errno = w.errno;
        st = record w.st { parent = record w.st.parent { pollfds = report rs w.st.pollfds } };
      }

      kept :
          (rs : List Events)
          → os.answer w.trace (poll w.st.pollfds) ≡ ok rs
          → Inv (p_handle_activity os (polled rs)).1.st.parent
      kept rs e =
          let whole = law.poll_reports_all w.trace w.st.pollfds rs e in
          p_handle_activity-Inv law (polled rs) (report-Inv w.st.parent rs v)
            (λ j.
              rw (report-get_or rs w.st.pollfds j whole)
                (quiet.free_slot_calm w.trace w.st.pollfds rs e j))
            λ new.
              ap (λ (p : Pollfd). p.events.pollin) (report-get_or rs w.st.pollfds 0 whole)
              ∙ law.poll_requested w.trace w.st.pollfds rs e (
                  sym (
                    ap (λ (p : Pollfd). is_pollin p.revents)
                      (report-get_or rs w.st.pollfds 0 whole))
                  ∙ new)

      go :
          (r : Ret (List Events))
          → os.answer w.trace (poll w.st.pollfds) ≡ r
          → Inv (poll_round os w).1.st.parent
      go (ok rs) e =
          rw (e, poll_round)
            (>>=-keeps (λ m. Inv m.st.parent) (p_handle_activity os) (λ _. pure true) (polled rs)
              (kept rs e) λ _ _ v'. v')
      go (fail eintr) e = rw (e, poll_round) v
      go (fail x) e = rw (e, poll_round) v

  poll_loop-Inv :
      Lawful os
      → StdinOpen os
      → (rounds : ℕ) (w : Machine Parent) → Inv w.st.parent
      → Inv (poll_loop os rounds w).1.st.parent
  unfolding poll_loop
  poll_loop-Inv law quiet zero w v = v
  poll_loop-Inv law quiet (suc rounds) w v =
      >>=-keeps (λ m. Inv m.st.parent) (running os) _ w (running-Inv w v)
        (elim [
          | false ↦ λ _ v'. v'
          | true ↦ λ _ v'.
              >>=-keeps (λ m. Inv m.st.parent) (poll_round os) _ (running os w).1
                (poll_round-Inv law quiet (running os w).1 v')
                (elim [ true ↦ λ _ u. poll_loop-Inv law quiet rounds _ u | false ↦ λ _ u. u ])
        ])

  setup_signal_handler-st :
      (signal : Signal) (w : Machine Parent) → (setup_signal_handler os signal w).1.st ≡ w.st
  unfolding setup_signal_handler
  setup_signal_handler-st signal w = ground arith

  setup_signal_handler-Inv :
      (signal : Signal) (w : Machine Parent)
      → Inv w.st.parent
      → Inv (setup_signal_handler os signal w).1.st.parent
  setup_signal_handler-Inv signal w v = rw (setup_signal_handler-st signal w) v

  -- On a lawful platform whose standard input is never reported hung up or in error, however many rounds the parent runs, whatever the calls answer and whatever numbers
  -- come over the pipe, a state with the invariant leads to one with the invariant.
  pub p_run_poll_loop-Inv :
      Lawful os
      → StdinOpen os
      → (rounds : ℕ) (w : Machine Parent) → Inv w.st.parent
      → Inv (p_run_poll_loop os rounds w).1.st.parent
  unfolding p_run_poll_loop
  p_run_poll_loop-Inv law quiet rounds w v =
      >>=-keeps (λ (m : Machine Parent). Inv m.st.parent) (setup_signal_handler os sigint) _ w
        (setup_signal_handler-Inv sigint w v)
        λ _ _ v'.
          >>=-keeps (λ (m : Machine Parent). Inv m.st.parent) (setup_signal_handler os sigterm) _ _
            (setup_signal_handler-Inv sigterm _ v') λ _ _ v''. poll_loop-Inv law quiet rounds _ v''
