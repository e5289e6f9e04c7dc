-- ===== src/Poll/Safety/Free.antt =====
-- Which steps keep free slots calm, and which leave the state as it is.
use scalable_server.Poll.Loop.{close_fd_report_undefined_error}
use scalable_server.Poll.State.{set_listen, reset_revents, forget_connection, Server}
use Prim.Native.Nat.{suc, ℕ}
use scalable_server.Prelude.{
  zero, set, if◌then◌else◌, get_or-set_cases, Bool, false, true, get_or, inr, ◌∙◌, inl, ◌==◌, not,
  ◌&&◌, ltb, List, Bool-cases, refl, arith, suc, ◌≡◌, ℕ, ℤ,
}
use scalable_server.Os.{
  Calm, only_pollin, is_hung_up, no_pollfd, Events, >>=-keeps, Pollfd, Machine, Platform,
}
use scalable_server.Poll.Receive.{recv_once, recv_loop, log, poll_recv_and_log}

abbrev pub AllCalm : Server → Type 0
AllCalm s = (j : ℕ) → Calm (get_or s.pollfds j no_pollfd)

pub set_listen-Calm :
    (b : Bool) (e : Events) (ps : List Pollfd) (j : ℕ)
    → ((k : ℕ) → Calm (get_or ps k no_pollfd))
    → Calm (get_or (if b then set_listen e ps else ps) j no_pollfd)
set_listen-Calm false e ps j h = h j
set_listen-Calm true e ps j h = get_or-set_cases Calm ps 0 j _ no_pollfd (h 0) (h j)

pub forget_connection-Calm : (s : Server) (i : ℕ) → AllCalm s → AllCalm (forget_connection i s)
unfolding forget_connection is_hung_up
forget_connection-Calm s i h j =
    set_listen-Calm _ only_pollin (set s.pollfds (suc i) no_pollfd) j
      λ k. get_or-set_cases Calm s.pollfds (suc i) k no_pollfd no_pollfd (λ _. refl) (h k)

pub reset_revents-Calm : (s : Server) (i : ℕ) → AllCalm s → AllCalm (reset_revents i s)
unfolding reset_revents is_hung_up
reset_revents-Calm s i h j = get_or-set_cases Calm s.pollfds i j _ no_pollfd (λ _. refl) (h j)

module _ (os : Platform) where
  pub recv_once-st :
      (fd : ℤ) (buffer size got : ℕ) (w : Machine Server)
      → (recv_once os fd buffer size got w).1.st ≡ w.st
  unfolding recv_once
  recv_once-st fd buffer size got w = ground arith

  pub recv_loop-st :
      (rounds : ℕ) (fd : ℤ) (buffer size bytes got : ℕ) (w : Machine Server)
      → (recv_loop os rounds fd buffer size bytes got w).1.st ≡ w.st
  unfolding recv_loop
  recv_loop-st zero fd buffer size bytes got w = refl
  recv_loop-st (suc rounds) fd buffer size bytes got w =
      elim (Bool-cases (ltb got size && not (bytes == 0))) [
        | inl go ↦
            rw (go, recv_loop)
              (>>=-keeps (λ v. v.st ≡ w.st) (recv_once os fd buffer size got) _ w
                (recv_once-st fd buffer size got w)
                λ n e same. recv_loop-st rounds fd buffer size n _ _ ∙ same)
        | inr stop ↦ rw (stop, recv_loop)
      ]

  pub poll_recv_and_log-st :
      (fd : ℤ) (fd_num : ℕ) (w : Machine Server) → (poll_recv_and_log os fd fd_num w).1.st ≡ w.st
  unfolding poll_recv_and_log log
  poll_recv_and_log-st fd fd_num w = grind (arith, recv_loop-st)

  pub close_fd-st :
      (fd : ℤ) (w : Machine Server) → (close_fd_report_undefined_error os fd w).1.st ≡ w.st
  unfolding close_fd_report_undefined_error
  close_fd-st fd w = ground arith
