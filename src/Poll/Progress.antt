-- ===== src/Poll/Progress.antt =====
-- What the event loop of poll-server/src/poll_server.c calls ends, and forgets no call.
use Prim.Native.Nat.{suc, ℕ}
use scalable_server.Prelude.{
  refl, none, some, ◌∷◌, Option, zero, ◌%◌, inl, inr, ◌==◌, ◌^◌, not, ◌&&◌, ◌<◌, ◌+◌, ltb,
  Bool-cases, ◌≡◌, suc, ◌≤◌, length, List, arith, ℕ, ℤ,
}
use scalable_server.Os.{
  Ends, clock, time, Event, pure, ◌>>=◌, check, fail, Ret, more, fault, malloc, err, ret, did, Res,
  >>=-keeps, ok, recv, Machine, Platform, Makes, resume-Makes,
}
use scalable_server.Poll.Memory.{announced}
use scalable_server.Poll.Messages.{recv_loop-Ends, seen_end-empty, seen_end}
use scalable_server.Poll.Receive.{recv_once, recv_loop, log, poll_recv_and_log}
use scalable_server.Poll.State.{Server}
use scalable_server.Poll.Loop.{close_fd_report_undefined_error, poll_accept, poll_remove_connection}

-- No client announces a message of 2 ^ 32 - 1 bytes.
abbrev pub Modest : Platform → Type 0
Modest os =
    (fd : ℤ) (header : List ℕ) (w : Machine Server)
    → os.answer w.trace (recv fd 4) ≡ ok header
    → announced os fd header w + 1 < 2 ^ 32

module _ (os : Platform) where
  recv_once-grows :
      (fd : ℤ) (buffer size got : ℕ) (w : Machine Server)
      → length w.trace ≤ length (recv_once os fd buffer size got w).1.trace
  unfolding recv_once
  recv_once-grows fd buffer size got w = grind arith

  recv_loop-grows :
      (rounds : ℕ) (fd : ℤ) (buffer size bytes got : ℕ) (w : Machine Server)
      → length w.trace ≤ length (recv_loop os rounds fd buffer size bytes got w).1.trace
  unfolding recv_loop
  recv_loop-grows zero fd buffer size bytes got w = omega arith
  recv_loop-grows (suc rounds) fd buffer size bytes got w =
      elim (Bool-cases (ltb got size && not (bytes == 0))) [
        | inr stop ↦ rw stop (omega arith)
        | inl go ↦ rw go (
            >>=-keeps (λ v. length w.trace ≤ length v.trace) (recv_once os fd buffer size got)
              (λ n. recv_loop os rounds fd buffer size n ((got + n) % 2 ^ 32)) w
              (recv_once-grows fd buffer size got w)
              λ n _ h. omega (
                arith,
                recv_loop-grows rounds fd buffer size n ((got + n) % 2 ^ 32)
                    (recv_once os fd buffer size got w).1,
              ))
      ]

  loop-Makes :
      (w v : Machine Server) (r : Res ℕ × Machine Server)
      → Ends r
      → length v.trace ≤ length r.1.trace
      → length w.trace ≤ length v.trace
      → Makes 0 w r
  loop-Makes w v (ret n, u) ends grows before = omega arith
  loop-Makes w v (err, u) ends grows before = tt
  loop-Makes w v (fault, u) ends grows before = tt
  loop-Makes w v (more, u) ends grows before = ends

  reply-Makes :
      (r : Ret ℕ) (v u : Machine Server)
      → length v.trace ≤ length u.trace
      → Makes 0 v ((check r >>= λ _. pure tt) u)
  reply-Makes (ok n) v u later = omega arith
  reply-Makes (fail x) v u later = tt

  pub poll_recv_and_log-Makes :
      Modest os
      → (fd : ℤ) (fd_num : ℕ) (w : Machine Server) → Makes 0 w (poll_recv_and_log os fd fd_num w)
  unfolding poll_recv_and_log log seen_end
  poll_recv_and_log-Makes modest fd fd_num w = received (os.answer w.trace (recv fd 4)) refl
    where
      allocated_trace : List ℕ → ℕ → List Event
      allocated_trace header p =
          did (malloc (announced os fd header w + 1)) (some p)
          ∷ did (recv fd 4) (ok header)
          ∷ w.trace

      timed_trace : List ℕ → ℕ → List Event
      timed_trace header p =
          did time (os.answer (allocated_trace header p) time) ∷ allocated_trace header p

      before_loop : List ℕ → ℕ → Machine Server
      before_loop header p = record w {
        trace = did clock (os.answer (timed_trace header p) clock) ∷ timed_trace header p;
      }

      allocated :
          (header : List ℕ)
          → os.answer w.trace (recv fd 4) ≡ ok header
          → (b : Option ℕ)
          → os.answer
              (did (recv fd 4) (ok header) ∷ w.trace)
              (malloc (announced os fd header w + 1))
            ≡ b
          → Makes 0 w (poll_recv_and_log os fd fd_num w)
      allocated header e none m = rw (e, m, poll_recv_and_log) tt
      allocated header e (some p) m =
          rw (e, m, poll_recv_and_log)
            (let size = announced os fd header w in
              let v = before_loop header p in
              resume-Makes 0 0 w (recv_loop os (suc (suc size)) fd p size (length header) 0 v) _
                (loop-Makes w v (recv_loop os (suc (suc size)) fd p size (length header) 0 v)
                  (recv_loop-Ends os fd p size (length header) v (modest fd header w e)
                    (seen_end-empty fd 4 header w.trace))
                  (recv_loop-grows (suc (suc size)) fd p size (length header) 0 v) (omega arith))
                (λ n u. reply-Makes _ u _ (omega arith)))

      received :
          (r : Ret (List ℕ))
          → os.answer w.trace (recv fd 4) ≡ r
          → Makes 0 w (poll_recv_and_log os fd fd_num w)
      received (fail x) e = rw (e, poll_recv_and_log) tt
      received (ok header) e = allocated header e _ refl

  pub poll_accept-Makes : (w : Machine Server) → Makes 0 w (poll_accept os w)
  unfolding poll_accept
  poll_accept-Makes w = grind arith

  pub poll_remove_connection-Makes :
      (p : ℕ) (w : Machine Server) → Makes 0 w (poll_remove_connection os p w)
  unfolding poll_remove_connection close_fd_report_undefined_error
  poll_remove_connection-Makes p w = grind arith
