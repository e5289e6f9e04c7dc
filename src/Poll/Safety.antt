-- ===== src/Poll/Safety.antt =====
-- The event loop keeps the invariant, whatever the clients and the calls do.
mod Free
pub use Free.*
use scalable_server.Poll.Invariant.{
  report-Inv, listen_events, forget_connection-Inv, reset_revents-Inv, save_connection-Inv, Inv,
}
use scalable_server.Poll.Loop.{
  setup_signal_handler, execute_poll, run_poll_server, poll_loop, handle_activity, end_gogo_handler,
  poll_comm, running, poll_round, comm_from, handle_slot, comm_slot, poll_remove_connection,
  close_fd_report_undefined_error, poll_accept,
}
use scalable_server.Poll.State.{
  set_listen, reset_revents, forget_connection, max_connections, Server,
}
use Prim.Native.Nat.{suc, ℕ}
use scalable_server.Prelude.{
  zero, ltb→lt, ◌≤◌, ◌+◌, ◌-◌, ap, get_or-map, set, if◌then◌else◌, sym, ◌∷◌, get_or-set_cases, pos,
  Bool, false, is_zero, true, get_or, inr, ◌∙◌, inl, ◌==◌, not, ◌&&◌, ◌<◌, ltb, List, Bool-cases,
  refl, arith, suc, ◌≡◌, ℕ, ℤ,
}
use scalable_server.Os.{
  report, report-get_or, Calm, Lawful, StdinOpen, sigterm, sigint, Signal, pure, did,
  pending_signal, only_pollin, is_hung_up, no_pollfd, no_events, is_pollin, poll, fail, Events,
  >>=-keeps, Pollfd, Ret, ok, accept, SockaddrIn, Machine, Platform,
}
use scalable_server.Poll.Receive.{recv_once, recv_loop, log, poll_recv_and_log}
use scalable_server.Os.{eintr}

module _ (os : Platform) where
  poll_accept-Inv :
      Lawful os
      → (w : Machine Server) → Inv w.st
      → w.st.num_connections < max_connections
      → Inv (poll_accept os w).1.st
  unfolding poll_accept
  poll_accept-Inv law w v room = go _ refl
    where
      go :
          (r : Ret (ℕ × SockaddrIn))
          → os.answer w.trace (accept w.st.listen_fd) ≡ r
          → Inv (poll_accept os w).1.st
      go (ok (n, addr)) e =
          rw (e, poll_accept)
            (save_connection-Inv w.st n addr v room (law.accept_positive _ _ n addr e))
      go (fail x) e = rw (e, poll_accept) v

  poll_remove_connection-st :
      (i : ℕ) (w : Machine Server) → (poll_remove_connection os i w).1.st ≡ forget_connection i w.st
  unfolding poll_remove_connection close_fd_report_undefined_error
  poll_remove_connection-st i w = ground arith

  -- What holds in the loop of `poll_comm`.
  abbrev CommInv : Machine Server → Type 0
  CommInv w = Inv w.st × AllCalm w.st

  slot_fd :
      (s : Server) (i : ℕ)
      → Inv s
      → (get_or s.pollfds (suc i) no_pollfd).fd ≡ get_or s.client_fd i (pos 0)
  slot_fd s i v =
      sym (get_or-map (λ (p : Pollfd). p.fd) s.pollfds (suc i) no_pollfd)
      ∙ ap (λ xs. get_or xs (suc i) (pos 0)) v.watched

  used_slot :
      (s : Server) (i : ℕ)
      → Inv s
      → AllCalm s
      → is_hung_up (get_or s.pollfds (suc i) no_pollfd).revents ≡ true
      → is_zero (get_or s.client_fd i (pos 0)) ≡ false
  used_slot s i v calm up = elim (Bool-cases (is_zero (get_or s.client_fd i (pos 0)))) [
    | inl free ↦ cc (calm (suc i) (ap is_zero (slot_fd s i v) ∙ free))
    | inr used ↦ used
  ]

  handle_slot-Inv :
      (i : ℕ)
      → i < max_connections
      → (w : Machine Server) → CommInv w
      → CommInv (handle_slot os (suc i) w).1
  unfolding handle_slot
  handle_slot-Inv i lt w (v, calm) =
      elim (Bool-cases (is_pollin (get_or w.st.pollfds (suc i) no_pollfd).revents)) [
        | inl readable ↦ rw (readable, poll_recv_and_log-st os _ (suc i) w) (v, calm)
        | inr still ↦
            elim (Bool-cases (is_hung_up (get_or w.st.pollfds (suc i) no_pollfd).revents)) [
              | inl up ↦
                  let e : suc i - 1 ≡ i = omega arith in
                  rw (still, up, e, poll_remove_connection-st i w)
                    (
                      forget_connection-Inv w.st i v lt (used_slot w.st i v calm up),
                      forget_connection-Calm w.st i calm,
                    )
              | inr quiet ↦ rw (still, quiet) (v, calm)
            ]
      ]

  comm_slot-Inv :
      (i : ℕ)
      → i < max_connections
      → (w : Machine Server) → CommInv w
      → CommInv (comm_slot os (suc i) w).1
  unfolding comm_slot
  comm_slot-Inv i lt w inv =
      >>=-keeps CommInv (handle_slot os (suc i)) _ w (handle_slot-Inv i lt w inv)
        λ _ _ kept. (reset_revents-Inv _ i kept.0, reset_revents-Calm _ (suc i) kept.1)

  comm_from-Inv :
      (rounds i : ℕ)
      → rounds + i ≤ max_connections
      → (w : Machine Server) → CommInv w
      → CommInv (comm_from os rounds (suc i) w).1
  unfolding comm_from
  comm_from-Inv zero i le w inv = inv
  comm_from-Inv (suc rounds) i le w inv =
      >>=-keeps CommInv (comm_slot os (suc i)) _ w (comm_slot-Inv i (omega arith) w inv)
        λ _ _ kept. comm_from-Inv rounds (suc i) (omega arith) _ kept

  Inv-gogo : (s : Server) (b : Bool) → Inv s → Inv (record s { gogo_poll = b })
  Inv-gogo s b v = record {
    fds_len = v.fds_len;
    watched = v.watched;
    counted = v.counted;
    listens = v.listens;
  }

  running-Inv : (w : Machine Server) → Inv w.st → Inv (running os w).1.st
  unfolding running end_gogo_handler
  running-Inv w v = go (os.answer w.trace pending_signal) refl
    where
      go : (b : Bool) → os.answer w.trace pending_signal ≡ b → Inv (running os w).1.st
      go true e = rw (e, running) (Inv-gogo w.st false v)
      go false e = rw (e, running) v

  room_to_accept :
      (s : Server) → Inv s → (listen_events s).pollin ≡ true → s.num_connections < max_connections
  room_to_accept s v on = elim (Bool-cases (ltb s.num_connections max_connections)) [
    | inl room ↦ ltb→lt _ _ room
    | inr full ↦
        let off : listen_events s ≡ no_events = v.listens ∙ rw full refl in
        cc (ap (λ (e : Events). e.pollin) off)
  ]

  handle_activity-Inv :
      Lawful os
      → (w : Machine Server) → Inv w.st
      → AllCalm w.st
      → (is_pollin (get_or w.st.pollfds 0 no_pollfd).revents ≡ true
          → (listen_events w.st).pollin ≡ true)
      → Inv (handle_activity os w).1.st
  unfolding handle_activity poll_comm
  handle_activity-Inv law w v calm asked =
      elim (Bool-cases (is_pollin (get_or w.st.pollfds 0 no_pollfd).revents)) [
        | inl new ↦ rw new (poll_accept-Inv law w v (room_to_accept w.st v (asked new)))
        | inr old ↦ rw old (comm_from-Inv max_connections 0 (omega arith) w (v, calm)).0
      ]

  poll_round-Inv :
      Lawful os → StdinOpen os → (w : Machine Server) → Inv w.st → Inv (poll_round os w).1.st
  unfolding poll_round
  poll_round-Inv law quiet w v = go (os.answer w.trace (poll w.st.pollfds)) refl
    where
      polled : List Events → Machine Server
      polled rs = record {
        trace = did (poll w.st.pollfds) (ok rs) ∷ w.trace;
        errno = w.errno;
        st = record w.st { pollfds = report rs w.st.pollfds };
      }

      kept :
          (rs : List Events)
          → os.answer w.trace (poll w.st.pollfds) ≡ ok rs
          → Inv (handle_activity os (polled rs)).1.st
      kept rs e =
          let whole = law.poll_reports_all w.trace w.st.pollfds rs e in
          handle_activity-Inv law (polled rs) (report-Inv w.st rs v)
            (λ j.
              rw (report-get_or rs w.st.pollfds j whole)
                (quiet.free_slot_calm w.trace w.st.pollfds rs e j))
            λ new.
              ap (λ (p : Pollfd). p.events.pollin) (report-get_or rs w.st.pollfds 0 whole)
              ∙ law.poll_requested w.trace w.st.pollfds rs e (
                  sym (
                    ap (λ (p : Pollfd). is_pollin p.revents)
                      (report-get_or rs w.st.pollfds 0 whole))
                  ∙ new)

      go :
          (r : Ret (List Events))
          → os.answer w.trace (poll w.st.pollfds) ≡ r
          → Inv (poll_round os w).1.st
      go (ok rs) e =
          rw (e, poll_round)
            (>>=-keeps (λ m. Inv m.st) (handle_activity os) (λ _. pure true) (polled rs) (kept rs e)
              λ _ _ v'. v')
      go (fail eintr) e = rw (e, poll_round) v
      go (fail x) e = rw (e, poll_round) v

  poll_loop-Inv :
      Lawful os
      → StdinOpen os
      → (rounds : ℕ) (w : Machine Server) → Inv w.st
      → Inv (poll_loop os rounds w).1.st
  unfolding poll_loop
  poll_loop-Inv law quiet zero w v = v
  poll_loop-Inv law quiet (suc rounds) w v =
      >>=-keeps (λ m. Inv m.st) (running os) _ w (running-Inv w v)
        (elim [
          | false ↦ λ _ v'. v'
          | true ↦ λ _ v'.
              >>=-keeps (λ m. Inv m.st) (poll_round os) _ (running os w).1
                (poll_round-Inv law quiet (running os w).1 v')
                (elim [ true ↦ λ _ u. poll_loop-Inv law quiet rounds _ u | false ↦ λ _ u. u ])
        ])

  setup_signal_handler-st :
      (signal : Signal) (w : Machine Server) → (setup_signal_handler os signal w).1.st ≡ w.st
  unfolding setup_signal_handler
  setup_signal_handler-st signal w = ground arith

  setup_signal_handler-Inv :
      (signal : Signal) (w : Machine Server)
      → Inv w.st
      → Inv (setup_signal_handler os signal w).1.st
  setup_signal_handler-Inv signal w v = rw (setup_signal_handler-st signal w) v

  execute_poll-Inv :
      Lawful os
      → StdinOpen os
      → (rounds : ℕ) (w : Machine Server) → Inv w.st
      → Inv (execute_poll os rounds w).1.st
  unfolding execute_poll
  execute_poll-Inv law quiet rounds w v =
      >>=-keeps (λ m. Inv m.st) (setup_signal_handler os sigint) _ w
        (setup_signal_handler-Inv sigint w v)
        λ _ _ v'.
          >>=-keeps (λ m. Inv m.st) (setup_signal_handler os sigterm) _ _
            (setup_signal_handler-Inv sigterm _ v') λ _ _ v''. poll_loop-Inv law quiet rounds _ v''

  -- On a lawful platform whose standard input is never reported hung up or in error, however many rounds the server runs and whatever the calls answer, a state with
  -- the invariant leads to one with the invariant, also when the server stops with an error.
  pub run_poll_server-Inv :
      Lawful os
      → StdinOpen os
      → (rounds : ℕ) (w : Machine Server) → Inv w.st
      → Inv (run_poll_server os rounds w).1.st
  unfolding run_poll_server
  run_poll_server-Inv law quiet rounds w v = execute_poll-Inv law quiet rounds _ v
