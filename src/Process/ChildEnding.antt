-- ===== src/Process/ChildEnding.antt =====
-- A child's loop of process-server/src/process_server.c ends once a signal comes.
use scalable_server.Process.State.{Child}
use scalable_server.Process.Parent.{close_fd_report_undefined_error}
use scalable_server.Process.Child.{
  c_get_file_description_from_domain_socket, c_get_message_length, c_handle_message,
  c_inform_parent_recv_finished, c_log, c_receive_and_handle_messages,
  c_recv_log_notify_parent_respond, c_running, c_end_gogo_handler, pointer_size, recv_loop,
  recv_once, store_descriptor, zero_child,
}
use scalable_server.Prelude.{
  arith, Bool-cases, dec_lt, false, inl, inr, length, List, ltb, none, not, Option, some, suc, zero,
  ℕ, ℤ, ◌+◌, ◌%◌, ◌^◌, ◌<◌, ◌≤◌, ◌≡◌, ◌==◌, ◌&&◌, ◌∷◌, refl,
}
use scalable_server.Os.{
  call, check, clock, err, fault, Makes-later, more, pure, resume, resume-Brings, ◌>>=◌, did, Ends,
  Event, fail, free, is_eintr, Machine, Makes, malloc, ok, overlay, pending_signal, Platform, recv,
  Res, resume-Makes, resume-Brings, Ret, ret, send, Signalled, time, Brings, Call,
}

-- No client announces a message of 2 ^ 32 - 1 bytes, for which the buffer would have no size.
abbrev pub Modest : Platform → Type 0
Modest os =
    (h : List Event) (fd : ℤ) (header : List ℕ)
    → os.answer h (recv fd 4) ≡ ok header
    → os.ntohl (os.word32 (overlay header (os.scratch (did (recv fd 4) (ok header) ∷ h)))) % 2 ^ 32
        + 1
      < 2 ^ 32

module _ (os : Platform) where
  recv_once-Brings :
      (fd : ℤ) (buffer size so_far : ℕ) (w : Machine Child)
      → Brings (λ n. so_far + n ≤ size + 1) w (recv_once os fd buffer size so_far w)
  unfolding recv_once
  recv_once-Brings fd buffer size so_far w = go _ refl
    where
      go :
          (r : Ret (List ℕ))
          → os.answer w.trace (recv fd pointer_size) ≡ r
          → Brings (λ n. so_far + n ≤ size + 1) w (recv_once os fd buffer size so_far w)
      go (fail x) e = rw (e, recv_once) tt
      go (ok message) e = elim (Bool-cases (ltb (size + 1) (so_far + length message))) [
        | inl over ↦ rw (e, recv_once, over) tt
        | inr fits ↦ rw (e, recv_once, fits) (ground arith, omega arith)
      ]

  stops_at_end :
      (rounds : ℕ) (fd : ℤ) (buffer size so_far : ℕ) (w : Machine Child)
      → 0 < rounds
      → recv_loop os rounds fd buffer size 0 so_far w ≡ (ret so_far, w)
  unfolding recv_loop
  stops_at_end zero fd buffer size so_far w h = absurd (omega arith)
  stops_at_end (suc rounds) fd buffer size so_far w h = ground arith

  -- For a message of `size` bytes, with `size + 1` below 2 ^ 32, from `so_far` bytes on and with more
  -- rounds than the bytes that still fit in the buffer, the loop that receives it ends.
  recv_loop-Makes :
      (rounds : ℕ) (fd : ℤ) (buffer size bytes so_far : ℕ) (w : Machine Child)
      → size + 1 < 2 ^ 32
      → so_far ≤ size + 1
      → size + 1 < rounds + so_far
      → Makes 0 w (recv_loop os rounds fd buffer size bytes so_far w)
  unfolding recv_loop
  recv_loop-Makes zero fd buffer size bytes so_far w small fits enough = absurd (omega arith)
  recv_loop-Makes (suc rounds) fd buffer size bytes so_far w small fits enough =
      elim (Bool-cases (ltb so_far size && not (bytes == 0))) [
        | inr stop ↦ rw stop (omega arith)
        | inl go ↦ rw go (
            resume-Brings (λ n. so_far + n ≤ size + 1) w (recv_once os fd buffer size so_far w)
              (λ n. recv_loop os rounds fd buffer size n ((so_far + n) % 2 ^ 32))
              (recv_once-Brings fd buffer size so_far w)
              (λ n v room. elim (dec_lt 0 n) [
                | yes some_bytes ↦
                    let m : (so_far + n) % 2 ^ 32 ≡ so_far + n = omega arith in
                    rw m (
                      recv_loop-Makes rounds fd buffer size n (so_far + n) v small room
                        (omega arith))
                | no none_left ↦
                    let z : n ≡ 0 = omega arith in
                    rw (z, stops_at_end rounds fd buffer size _ v (ground arith)) (omega arith)
              ]))
      ]

  c_get_message_length-Brings :
      Modest os
      → (w : Machine Child)
      → Brings (λ message. message.1 + 1 < 2 ^ 32) w (c_get_message_length os w)
  unfolding c_get_message_length
  c_get_message_length-Brings modest w = go _ refl
    where
      go :
          (r : Ret (List ℕ))
          → os.answer w.trace (recv w.st.client_fd_local 4) ≡ r
          → Brings (λ message. message.1 + 1 < 2 ^ 32) w (c_get_message_length os w)
      go (fail x) e = rw (e, c_get_message_length) tt
      go (ok header) e = allocated _ refl
        where
          before : List Event
          before = did (recv w.st.client_fd_local 4) (ok header) ∷ w.trace

          size : ℕ
          size = os.ntohl (os.word32 (overlay header (os.scratch before))) % 2 ^ 32

          allocated :
              (o : Option ℕ)
              → os.answer before (malloc (size + 1)) ≡ o
              → Brings (λ message. message.1 + 1 < 2 ^ 32) w (c_get_message_length os w)
          allocated (some buffer) d =
              rw (e, d, c_get_message_length)
                (modest w.trace w.st.client_fd_local header e, omega arith)
          allocated none d = rw (e, d, c_get_message_length) tt

  c_get-Makes : (w : Machine Child) → Makes 0 w (c_get_file_description_from_domain_socket os w)
  unfolding c_get_file_description_from_domain_socket store_descriptor
  c_get-Makes w = grind arith

  c_inform_parent-Makes : (w : Machine Child) → Makes 0 w (c_inform_parent_recv_finished os w)
  unfolding c_inform_parent_recv_finished
  c_inform_parent-Makes w = grind arith

  c_log-Makes :
      (bytes start_time end_time start_granular end_granular : ℕ) (w : Machine Child)
      → Makes 0 w (c_log os bytes start_time end_time start_granular end_granular w)
  unfolding c_log
  c_log-Makes bytes start_time end_time start_granular end_granular w = grind arith

  close-Makes : (fd : ℤ) (w : Machine Child) → Makes 0 w (close_fd_report_undefined_error os fd w)
  unfolding close_fd_report_undefined_error
  close-Makes fd w = grind arith

  abbrev asked : Call → Machine Child → Machine Child
  asked c v = record v { trace = did c (os.answer v.trace c) ∷ v.trace }

  asked_twice-Makes :
      {A : Type 0} (c d : Call) (w : Machine Child) (r : Res A × Machine Child)
      → Makes 0 (asked c (asked d w)) r
      → Makes 0 w r
  asked_twice-Makes c d w r h = Makes-later 0 w (asked c (asked d w)) r (omega arith) h

  replied-Makes :
      (buffer : ℕ) (fd : ℤ) (message : List ℕ) (w : Machine Child)
      → Makes 0 w (
          (call os (free buffer) >>= λ _.
          call os (send fd message) >>= λ r. check r >>= λ sent. pure {A = Unit {0}} tt)
            w)
  replied-Makes buffer fd message w = grind arith

  message-Makes :
      Modest os → (w : Machine Child) → Makes 0 w (c_recv_log_notify_parent_respond os w)
  unfolding c_recv_log_notify_parent_respond
  message-Makes modest w =
      resume-Brings (λ message. message.1 + 1 < 2 ^ 32) w (c_get_message_length os w) _
        (c_get_message_length-Brings modest w)
        (λ message v small.
          let v' = asked clock (asked time v) in
          resume-Makes 0 0 v
            (recv_loop os (suc (suc message.1)) w.st.client_fd_local message.0 message.1 1 0 v') _
            (asked_twice-Makes clock time v _ (
              recv_loop-Makes (suc (suc message.1)) w.st.client_fd_local message.0 message.1 1 0 v'
                small (omega arith) (omega arith)))
            (λ bytes_read x.
              let x' = asked time (asked clock x) in
              resume-Makes 0 0 x (c_inform_parent_recv_finished os x') _
                (asked_twice-Makes time clock x _ (c_inform_parent-Makes x'))
                (λ _ y.
                  resume-Makes 0 0 y (c_log os bytes_read _ _ _ _ y) _
                    (c_log-Makes bytes_read _ _ _ _ y)
                    (λ _ z. replied-Makes message.0 w.st.client_fd_local _ z))))

  c_handle_message-Makes : Modest os → (w : Machine Child) → Makes 0 w (c_handle_message os w)
  unfolding c_handle_message
  c_handle_message-Makes modest w =
      resume-Makes 0 0 w (c_get_file_description_from_domain_socket os w0) _ (c_get-Makes w0)
        (λ _ v. elim (Bool-cases (is_eintr v.errno)) [
          | inl skip ↦ rw skip (close-Makes v.st.client_fd_local v)
          | inr calm ↦ rw calm (
              resume-Makes 0 0 v (c_recv_log_notify_parent_respond os v) _ (message-Makes modest v)
                (λ _ x. close-Makes x.st.client_fd_local x))
        ])
    where
      w0 : Machine Child
      w0 = record w { st = record w.st { child = zero_child } }

  -- One turn, and then `rounds` more unless a signal has come.
  loop-once :
      Modest os
      → (rounds : ℕ) (w : Machine Child)
      → ((u : Machine Child)
          → os.answer w.trace pending_signal ≡ false
          → length w.trace < length u.trace
          → Ends (c_receive_and_handle_messages os rounds u))
      → Ends (c_receive_and_handle_messages os (suc rounds) w)
  unfolding c_receive_and_handle_messages c_running c_end_gogo_handler
  loop-once modest rounds w next = elim (Bool-cases (os.answer w.trace pending_signal)) [
    | inl signalled ↦ simp signalled tt
    | inr quiet ↦ elim (Bool-cases w.st.gogo_process) [
      | inr stopped ↦ simp (quiet, stopped) tt
      | inl on ↦
          simp (quiet, on)
            (again quiet (record w { trace = did pending_signal false ∷ w.trace })
              (c_handle_message os (record w { trace = did pending_signal false ∷ w.trace }))
              (omega arith)
              (c_handle_message-Makes modest
                (record w { trace = did pending_signal false ∷ w.trace })))
    ]
  ]
    where
      again :
          os.answer w.trace pending_signal ≡ false
          → (v : Machine Child) (r : Res (Unit {0}) × Machine Child)
          → length v.trace ≡ 1 + length w.trace
          → Makes 0 v r
          → Ends (resume r (λ _. c_receive_and_handle_messages os rounds))
      again quiet v (ret _, u) one h = next u quiet (omega arith)
      again quiet v (err, u) one h = tt
      again quiet v (fault, u) one h = tt
      again quiet v (more, u) one h = h

  -- Where every call returns, no client announces 2 ^ 32 - 1 bytes, and each test of the flag after the n-th call
  -- finds that a signal has come, a child's loop ends, given more rounds than calls are missing to n: every message that is
  -- received ends, and the loop is left at such a test at the latest.
  pub child_loop-Ends :
      Modest os
      → (n : ℕ) → Signalled os n
      → (rounds : ℕ) (w : Machine Child) → n ≤ rounds + length w.trace
      → Ends (c_receive_and_handle_messages os (suc rounds) w)
  child_loop-Ends modest n signal zero w enough =
      loop-once modest zero w λ u quiet longer. absurd (grind (arith, signal w.trace (omega arith)))
  child_loop-Ends modest n signal (suc rounds) w enough =
      loop-once modest (suc rounds) w
        λ u quiet longer. child_loop-Ends modest n signal rounds u (omega arith)
