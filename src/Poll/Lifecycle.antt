-- ===== src/Poll/Lifecycle.antt =====
-- The poll server's setup and teardown, and that it is a library as the core expects it.
use scalable_server.Poll.Loop.{close_fd_report_undefined_error}
use scalable_server.Core.Api.{CoreObject, ServerStates, on_so}
use scalable_server.Core.Lifecycle.{ReturnsStates}
use scalable_server.Poll.State.{connection_queue, StateObject, zero_state}
use scalable_server.Poll.Setup.{
  close_all, destroy_poll_state, setup_poll_state, close_server, run_server, initialize_server,
  open_poll_server_for_listen, poll_api,
}
use scalable_server.Os.{
  calloc, attempt, pure, ◌>>=◌, closes, followed_by, >>=-ret, Errno, fail, listen, Ret, bind,
  Answer, socket, Call, more, fault, err, ret, ok, close, Res, SockaddrIn, did, Machine, Event,
  Platform,
}
use scalable_server.Prelude.{
  none, some, Option, eqb_ℤ-refl, ◌∙◌, refl, ℕ, pos, [], arith, ◌≡◌, if◌then◌else◌, eqb_ℤ, ◌∷◌, ℤ,
  List,
}

erase : ℤ → List ℤ → List ℤ
erase fd [] = []
erase fd (x ∷ xs) = if eqb_ℤ x fd then xs else x ∷ erase fd xs

sockets_after : (c : Call) → Answer c → List ℤ → List ℤ
unfolding erase
sockets_after socket (ok fd) open_before = pos fd ∷ open_before
sockets_after (close fd) _ open_before = erase fd open_before
sockets_after _ _ open_before = open_before

-- The sockets that a trace opened and did not close.
pub dangling : List Event → List ℤ
unfolding sockets_after
dangling [] = []
dangling (did c a ∷ t) = sockets_after c a (dangling t)

module _ (os : Platform) where
  -- What `open_poll_server_for_listen` leaves behind.
  abbrev pub Opened : Machine StateObject → Res (Unit {0}) × Machine StateObject → Type 0
  Opened w (ret _, w') =
      (w'.st ≡ record w.st { listen_fd = w'.st.listen_fd })
      × (dangling w'.trace ≡ w'.st.listen_fd ∷ dangling w.trace)
  Opened w (err, w') = (w'.st ≡ w.st) × (dangling w'.trace ≡ dangling w.trace)
  Opened w (fault, w') = ⊥
  Opened w (more, w') = ⊥

  -- Opening the server returns, and either fails with no socket left open and the state as it was, or
  -- succeeds with exactly one socket more, the one stored as `listen_fd`, the only field that changes.
  pub open_poll_server-Opened :
      (listen_addr : SockaddrIn) (w : Machine StateObject)
      → Opened w (open_poll_server_for_listen os listen_addr w)
  unfolding open_poll_server_for_listen dangling
  open_poll_server-Opened listen_addr w = opened (os.answer w.trace socket) refl
    where
      after_socket : ℕ → List Event
      after_socket fd = did socket (ok fd) ∷ w.trace

      after_bind : ℕ → List Event
      after_bind fd = did (bind (pos fd) listen_addr) (ok tt) ∷ after_socket fd

      unbound :
          (fd : ℕ) (x : Errno)
          → os.answer w.trace socket ≡ ok fd
          → os.answer (after_socket fd) (bind (pos fd) listen_addr) ≡ fail x
          → (r : Ret (Unit {0}))
          → os.answer (did (bind (pos fd) listen_addr) (fail x) ∷ after_socket fd) (close (pos fd))
            ≡ r
          → Opened w (open_poll_server_for_listen os listen_addr w)
      unbound fd x e b (ok _) c =
          rw (e, b, c, open_poll_server_for_listen) (refl, rw (eqb_ℤ-refl (pos fd)))
      unbound fd x e b (fail y) c =
          rw (e, b, c, open_poll_server_for_listen) (refl, rw (eqb_ℤ-refl (pos fd)))

      unheard :
          (fd : ℕ) (x : Errno)
          → os.answer w.trace socket ≡ ok fd
          → os.answer (after_socket fd) (bind (pos fd) listen_addr) ≡ ok tt
          → os.answer (after_bind fd) (listen (pos fd) connection_queue) ≡ fail x
          → (r : Ret (Unit {0}))
          → os.answer
              (did (listen (pos fd) connection_queue) (fail x) ∷ after_bind fd)
              (close (pos fd))
            ≡ r
          → Opened w (open_poll_server_for_listen os listen_addr w)
      unheard fd x e b l (ok _) c =
          rw (e, b, l, c, open_poll_server_for_listen) (refl, rw (eqb_ℤ-refl (pos fd)))
      unheard fd x e b l (fail y) c =
          rw (e, b, l, c, open_poll_server_for_listen) (refl, rw (eqb_ℤ-refl (pos fd)))

      listened :
          (fd : ℕ)
          → os.answer w.trace socket ≡ ok fd
          → os.answer (after_socket fd) (bind (pos fd) listen_addr) ≡ ok tt
          → (r : Ret (Unit {0})) → os.answer (after_bind fd) (listen (pos fd) connection_queue) ≡ r
          → Opened w (open_poll_server_for_listen os listen_addr w)
      listened fd e b (ok _) l = rw (e, b, l, open_poll_server_for_listen) (refl, refl)
      listened fd e b (fail x) l = unheard fd x e b l _ refl

      bound :
          (fd : ℕ)
          → os.answer w.trace socket ≡ ok fd
          → (r : Ret (Unit {0})) → os.answer (after_socket fd) (bind (pos fd) listen_addr) ≡ r
          → Opened w (open_poll_server_for_listen os listen_addr w)
      bound fd e (ok _) b = listened fd e b _ refl
      bound fd e (fail x) b = unbound fd x e b _ refl

      opened :
          (r : Ret ℕ)
          → os.answer w.trace socket ≡ r
          → Opened w (open_poll_server_for_listen os listen_addr w)
      opened (ok fd) e = bound fd e _ refl
      opened (fail x) e = rw (e, open_poll_server_for_listen) (refl, refl)

  -- What `initialize_server` leaves behind.
  abbrev pub Initialized :
      Machine (CoreObject StateObject)
      → Res ServerStates × Machine (CoreObject StateObject)
      → Type 0
  Initialized w (ret ServerStates.run_server, w') =
      (s : StateObject) × (w'.st.so ≡ some s)
      × (s ≡ record zero_state { listen_fd = s.listen_fd })
      × (dangling w'.trace ≡ s.listen_fd ∷ dangling w.trace)
  Initialized w (ret ServerStates.error, w') = dangling w'.trace ≡ dangling w.trace
  Initialized w r = ⊥

  -- initialize_server returns, whatever the calls answer: RUN_SERVER with a new state object, in which all
  -- but `listen_fd` is zero and `listen_fd` is the one socket that is open now and was not before; or ERROR, with no
  -- socket open that was not before.
  pub initialize_server-Initialized :
      (w : Machine (CoreObject StateObject)) → Initialized w (initialize_server os w)
  unfolding initialize_server setup_poll_state dangling
  initialize_server-Initialized w = go (os.answer w.trace (calloc 1)) refl
    where
      so_set : ℕ → Option StateObject → Machine (CoreObject StateObject)
      so_set p so = record w {
        trace = did (calloc 1) (some p) ∷ w.trace;
        st = record w.st { so = so };
      }

      begun : ℕ → Machine StateObject
      begun p = record {
        trace = did (calloc 1) (some p) ∷ w.trace;
        errno = w.errno;
        st = zero_state;
      }

      opened :
          (p : ℕ) (r : Res (Unit {0}) × Machine StateObject)
          → Opened (begun p) r
          → Initialized w (
              (attempt (on_so (λ _. r)) >>= elim [
                | none ↦ pure ServerStates.error
                | some _ ↦ pure ServerStates.run_server
              ])
                (so_set p (some zero_state)))
      opened p (ret _, v) (same, one) = (v.st, refl, same, one)
      opened p (err, v) (same, closed) = closed
      opened p (fault, v) h = h
      opened p (more, v) h = h

      go :
          (a : Option ℕ) → os.answer w.trace (calloc 1) ≡ a → Initialized w (initialize_server os w)
      go none e = rw e refl
      go (some p) e = rw e (
          opened p (open_poll_server_for_listen os w.st.listen_addr (begun p))
            (open_poll_server-Opened w.st.listen_addr (begun p)))

  -- The poll server returns only the states that api_functions.h documents: initialize_server RUN_SERVER
  -- or ERROR, run_server CLOSE_SERVER or ERROR, close_server EXIT.
  pub poll_api-ReturnsStates : (rounds : ℕ) → ReturnsStates (poll_api os rounds)
  unfolding poll_api initialize_server run_server close_server setup_poll_state
  poll_api-ReturnsStates rounds = record {
    initialize_states = λ w s h. ground arith;
    run_states = λ w s h. ground arith;
    close_states = λ w s h. ground arith;
  }

  -- Closing reports a failure at most: the call is made, and nothing else changes but `errno`.
  close_fd-closes :
      {S : Type 0} (fd : ℤ) (w : Machine S)
      → ((close_fd_report_undefined_error os fd w).0 ≡ ret tt)
        × ((close_fd_report_undefined_error os fd w).1.st ≡ w.st)
        × (closes (close_fd_report_undefined_error os fd w).1.trace ≡ fd ∷ closes w.trace)
  unfolding close_fd_report_undefined_error closes
  close_fd-closes fd w = ground arith

  close_all-closes :
      {S : Type 0} (fds : List ℤ) (w : Machine S)
      → ((close_all os fds w).0 ≡ ret tt)
        × ((close_all os fds w).1.st ≡ w.st)
        × (closes (close_all os fds w).1.trace ≡ followed_by (closes w.trace) fds)
  unfolding close_all followed_by
  close_all-closes [] w = (refl, refl, refl)
  close_all-closes (fd ∷ fds) w =
      let (done, same, closed) = close_fd-closes fd w in
      let (done', same', closed') =
        close_all-closes fds (close_fd_report_undefined_error os fd w).1 in
      rw (>>=-ret (close_fd_report_undefined_error os fd) (λ _. close_all os fds) w tt done)
        (done', same' ∙ same, closed' ∙ rw closed)

  -- Teardown returns, having tried to close the listening socket and then each client slot in order, the
  -- free ones, which hold 0, included.
  pub destroy_poll_state-closes :
      (w : Machine StateObject)
      → ((destroy_poll_state os w).0 ≡ ret tt)
        × (closes (destroy_poll_state os w).1.trace
            ≡ followed_by (closes w.trace) (w.st.listen_fd ∷ w.st.client_fd))
  unfolding destroy_poll_state followed_by
  destroy_poll_state-closes w =
      let (done, same, closed) = close_fd-closes w.st.listen_fd w in
      let (done', same', closed') =
        close_all-closes w.st.client_fd (close_fd_report_undefined_error os w.st.listen_fd w).1 in
      rw
        (>>=-ret (close_fd_report_undefined_error os w.st.listen_fd)
          (λ _. close_all os w.st.client_fd) w tt done)
        (done', closed' ∙ rw closed)
