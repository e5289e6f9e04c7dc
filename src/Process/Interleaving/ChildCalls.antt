-- ===== src/Process/Interleaving/ChildCalls.antt =====
-- The calls of `c_handle_message`, one turn of a child's loop, against the moves of a child.
use scalable_server.Process.Parent.{close_fd_report_undefined_error}
use scalable_server.Process.State.{Child}
use scalable_server.Process.Interleaving.Calls.{
  resume-Walks_if, Leaves, posts_to, receives_message, waits_for, writes_report, ChildPath, moves,
  resume-Walks, stays, Walks, does, action, actions,
}
use scalable_server.Process.Child.{
  c_get_file_description_from_domain_socket, store_descriptor, c_get_message_length, zero_child,
  c_handle_message, c_recv_log_notify_parent_respond, c_log, c_inform_parent_recv_finished,
  recv_loop,
}
use scalable_server.Prelude.{
  ap, ◌∙◌, false, pos, none, some, Option, refl, ◌≡◌, ℤ, ◌∷◌, suc, ℕ, [], List,
}
use scalable_server.Os.{
  no_error, eintr, ebadf, other_error, close, free, is_eintr, check, ◌>>=◌, call, pure, send, time,
  clock, domain_read, domain_write, recvmsg, getpeername, SockaddrIn, pipe_write, write_int, Call,
  did, log_file, Event, fail, sem_post, Ret, ok, Machine, sem_wait, Sem, Platform,
}
use scalable_server.Process.Interleaving.Receiving.{c_get_message_length-Walks, recv_loop-Walks}
use scalable_server.Process.Interleaving.System.{
  reply, idle, reading, wait_read, receive, post_write, read_message, post_log, write, wait_pipe,
  wait_log, at_log, replying, Shared,
}

-- No wait for a semaphore is interrupted or fails, and no post fails.
pub record Uninterrupted (os : Platform) : Type 0 where
  pub wait_ok : (h : List Event) (s : Sem) → os.answer h (sem_wait s) ≡ ok tt
  pub post_ok : (h : List Event) (s : Sem) → os.answer h (sem_post s) ≡ ok tt

-- The states of the semaphores, the socket and the pipe in which the moves are taken.
abbrev open_shared : Shared
open_shared = record {
  domain_write = 1;
  domain_read = 1;
  pipe_write = 1;
  log = 1;
  domain = 0 ∷ [];
  pipe = [];
}

module _ (os : Platform) (u : Uninterrupted os) where
  c_inform_parent-Walks :
      (w : Machine Child)
      → Walks (reading 0) (at_log 0) (actions w.trace) (c_inform_parent_recv_finished os w)
  unfolding c_inform_parent_recv_finished actions action does
  c_inform_parent-Walks w = go _ refl
    where
      waited : List Event
      waited = did (sem_wait pipe_write) (ok tt) ∷ w.trace

      report : Call
      report = write_int w.st.c_to_p_pipe_fds.1 w.st.client_fd_parent

      path :
          ChildPath
            (reading 0)
            (actions w.trace)
            (at_log 0)
            (writes_report ∷ waits_for pipe_write ∷ actions w.trace)
      path =
          moves {sh = open_shared}
            (moves {sh = open_shared} (moves {sh = open_shared} stays read_message)
              (wait_pipe refl))
            write

      go :
          (r : Ret ℕ)
          → os.answer waited (write_int w.st.c_to_p_pipe_fds.1 w.st.client_fd_parent) ≡ r
          → Walks (reading 0) (at_log 0) (actions w.trace) (c_inform_parent_recv_finished os w)
      go (ok n) e = rw (u.wait_ok w.trace pipe_write, e, c_inform_parent_recv_finished) path
      go (fail x) e =
          rw (u.wait_ok w.trace pipe_write, e, c_inform_parent_recv_finished) (at_log 0, path)

  c_log-Walks :
      (bytes start_time end_time start_granular end_granular : ℕ) (w : Machine Child)
      → Walks
          (at_log 0)
          (replying 0)
          (actions w.trace)
          (c_log os bytes start_time end_time start_granular end_granular w)
  unfolding c_log actions action does
  c_log-Walks bytes start_time end_time start_granular end_granular w =
      rw (u.wait_ok _ log_file, u.post_ok _ log_file, c_log)
        (moves {sh = open_shared} (moves {sh = open_shared} stays (wait_log refl)) post_log)

  c_get-Walks :
      (w : Machine Child)
      → Walks idle (reading 0) (actions w.trace) (c_get_file_description_from_domain_socket os w)
        × Leaves (λ v. v.errno ≡ w.errno) (c_get_file_description_from_domain_socket os w)
  unfolding c_get_file_description_from_domain_socket store_descriptor actions action does
  c_get-Walks w = go _ refl
    where
      waited : List Event
      waited = did (sem_wait domain_read) (ok tt) ∷ w.trace

      posted : Ret (Option ℤ × Option ℕ) → List Event
      posted r = did (sem_post domain_write) (ok tt) ∷ did (recvmsg w.st.domain_fds.0) r ∷ waited

      path :
          ChildPath idle
            (actions w.trace)
            (reading 0)
            (posts_to domain_write ∷ receives_message ∷ waits_for domain_read ∷ actions w.trace)
      path =
          moves {sh = open_shared}
            (moves {sh = open_shared} (moves {sh = open_shared} stays (wait_read refl))
              (receive refl))
            post_write

      Goal : Type 0
      Goal =
          Walks idle (reading 0) (actions w.trace) (c_get_file_description_from_domain_socket os w)
          × Leaves (λ v. v.errno ≡ w.errno) (c_get_file_description_from_domain_socket os w)

      go : (r : Ret (Option ℤ × Option ℕ)) → os.answer waited (recvmsg w.st.domain_fds.0) ≡ r → Goal
      go (fail x) e =
          rw (u.wait_ok w.trace domain_read, e, u.post_ok _ domain_write) ((reading 0, path), tt)
      go (ok (sent, none)) e =
          rw (u.wait_ok w.trace domain_read, e, u.post_ok _ domain_write) ((reading 0, path), tt)
      go (ok (sent, some fd)) e = peer _ refl
        where
          peer :
              (q : Ret SockaddrIn)
              → os.answer (posted (ok (sent, some fd))) (getpeername (pos fd)) ≡ q
              → Goal
          peer (ok addr) d =
              rw (u.wait_ok w.trace domain_read, e, u.post_ok _ domain_write, d) (path, refl)
          peer (fail x) d =
              rw (u.wait_ok w.trace domain_read, e, u.post_ok _ domain_write, d)
                ((reading 0, path), tt)

  replied-Walks :
      (fd : ℤ) (message : List ℕ) (w : Machine Child)
      → Walks
          (replying 0)
          idle
          (actions w.trace)
          ((call os (send fd message) >>= λ r. check r >>= λ sent. pure {A = Unit {0}} tt) w)
  unfolding actions action does
  replied-Walks fd message w = go _ refl
    where
      go :
          (r : Ret ℕ)
          → os.answer w.trace (send fd message) ≡ r
          → Walks
              (replying 0)
              idle
              (actions w.trace)
              ((call os (send fd message) >>= λ r. check r >>= λ sent. pure {A = Unit {0}} tt) w)
      go (ok n) e = rw e (moves {sh = open_shared} stays reply)
      go (fail x) e = rw e (replying 0, stays)

  abbrev asked : Call → Machine Child → Machine Child
  asked c v = record v { trace = did c (os.answer v.trace c) ∷ v.trace }

  -- From the message to the reply.
  message-Walks :
      (w : Machine Child)
      → Walks (reading 0) idle (actions w.trace) (c_recv_log_notify_parent_respond os w)
  unfolding c_recv_log_notify_parent_respond actions action
  message-Walks w =
      resume-Walks (reading 0) (reading 0) idle w (c_get_message_length os w) _
        (c_get_message_length-Walks os (reading 0) w)
        (λ message v.
          let v' = asked clock (asked time v) in
          resume-Walks (reading 0) (reading 0) idle v
            (recv_loop os (suc (suc message.1)) w.st.client_fd_local message.0 message.1 1 0 v') _
            (recv_loop-Walks os (suc (suc message.1)) (reading 0) w.st.client_fd_local message.0
              message.1 1 0 v')
            (λ bytes_read x.
              let x' = asked time (asked clock x) in
              resume-Walks (reading 0) (at_log 0) idle x (c_inform_parent_recv_finished os x') _
                (c_inform_parent-Walks x')
                (λ _ y.
                  resume-Walks (at_log 0) (replying 0) idle y (c_log os bytes_read _ _ _ _ y) _
                    (c_log-Walks bytes_read _ _ _ _ y)
                    (λ _ z. replied-Walks w.st.client_fd_local _ (asked (free message.0) z)))))

  -- Where no wait and no post of a semaphore fails, and `errno` is not EINTR from before, one turn of a
  -- child's loop that returns has made its calls on the semaphores, the socket, the pipe and the log
  -- in the order of the moves of a child from `idle` back to `idle`; one that ends in another way has made them
  -- in the order of the first of these moves.
  pub c_handle_message-Walks :
      (w : Machine Child)
      → is_eintr w.errno ≡ false
      → Walks idle idle (actions w.trace) (c_handle_message os w)
  unfolding c_handle_message close_fd_report_undefined_error actions action
  c_handle_message-Walks w calm =
      resume-Walks_if (λ v. v.errno ≡ w.errno) idle (reading 0) idle w
        (c_get_file_description_from_domain_socket os w0) _ (c_get-Walks w0).0 (c_get-Walks w0).1
        (λ _ v same. rw (ap is_eintr same ∙ calm) (
          resume-Walks (reading 0) idle idle v (c_recv_log_notify_parent_respond os v) _
            (message-Walks v) (λ _ x. closed x)))
    where
      w0 : Machine Child
      w0 = record w { st = record w.st { child = zero_child } }

      closed :
          (x : Machine Child)
          → Walks idle idle
              (actions x.trace)
              (close_fd_report_undefined_error os x.st.client_fd_local x)
      closed x = go _ refl
        where
          go :
              (r : Ret (Unit {0}))
              → os.answer x.trace (close x.st.client_fd_local) ≡ r
              → Walks idle idle
                  (actions x.trace)
                  (close_fd_report_undefined_error os x.st.client_fd_local x)
          go (ok _) e = rw e stays
          go (fail no_error) e = rw e stays
          go (fail eintr) e = rw e stays
          go (fail ebadf) e = rw e stays
          go (fail (other_error y)) e = rw e stays
