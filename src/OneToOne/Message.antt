-- ===== src/OneToOne/Message.antt =====
-- `check_fd`, `check_fd_msg`, `receive_message` and `log` of one-to-one/src/one_to_one.c.
use scalable_server.OneToOne.State.{contains, Server, ClientResult, MsgResult}
use Prim.Native.Nat.{min, suc, ℕ}
use scalable_server.Prelude.{
  ◌-◌, ◌^◌, zero, ◌%◌, ◌+◌, inr, drop, length, inl, ◌==◌, [], min, if◌then◌else◌, ◌∷◌, suc, ◌⊎◌,
  ◌*◌, List, ℤ, ℕ,
}
use scalable_server.Os.{
  cut_date, Ret, eintr, fflush, seconds, ip, overlay, descriptor, fail, ok, uninitialised, clock,
  number, send, select, log_line, recv_all, recv, time, call, pure, ◌>>◌, get, set_errno,
  out_of_rounds, ◌>>=◌, M, Errno, Platform,
}

-- sizeof(buf)
abbrev pub buffer_size : ℕ
buffer_size = 1024 * 1024

-- Go on after a success; return anything else.
abbrev pub on_success : M Server MsgResult → M Server MsgResult → M Server MsgResult
on_success m k = m >>= elim [
  | MsgResult.success ↦ k
  | MsgResult.error ↦ pure MsgResult.error
  | MsgResult.closed ↦ pure MsgResult.closed
  | MsgResult.termination ↦ pure MsgResult.termination
]

-- What the code makes of a failed `recv`.
abbrev pub recv_failure : Errno → M Server MsgResult
recv_failure e =
    set_errno e >> elim e [ eintr ↦ pure MsgResult.termination | e' ↦ pure MsgResult.error ]

module _ (os : Platform) where
  unfoldable pub check_fd : ℤ → M Server ClientResult
  check_fd fd = do
    s ← get
    ready ← call os (select (fd ∷ s.self_pipe.0 ∷ []))
    elim ready [
      | fail e ↦
          set_errno e
          >> elim e [ eintr ↦ pure ClientResult.termination | e' ↦ pure ClientResult.error ]
      | ok fds ↦
          if contains s.self_pipe.0 fds
          then pure ClientResult.termination
          else pure ClientResult.success
    ]

  unfoldable pub check_fd_msg : ℤ → M Server MsgResult
  check_fd_msg fd = check_fd fd >>= elim [
    | ClientResult.success ↦ pure MsgResult.success
    | ClientResult.termination ↦ pure MsgResult.termination
    | ClientResult.error ↦ pure MsgResult.error
  ]

  -- One `recv` of the loop over the message; `inr` is to go on, with that many bytes read.
  unfoldable pub recv_part : ℤ → ℕ → M Server (MsgResult ⊎ ℕ)
  recv_part fd remaining_bytes = do
    part ← call os (recv fd (min buffer_size remaining_bytes))
    elim part [
      | ok [] ↦ pure (inl MsgResult.closed)
      | ok (x ∷ xs) ↦ pure (inr (length (x ∷ xs)))
      | fail e ↦ recv_failure e >>= λ r. pure (inl r)
    ]

  -- `recv`, and the rest of the loop with the number of bytes read.
  unfoldable pub after_part : ℤ → ℕ → (ℕ → M Server MsgResult) → M Server MsgResult
  after_part fd remaining_bytes rest =
      recv_part fd remaining_bytes
      >>= elim [ inl result ↦ pure result | inr read_bytes ↦ rest read_bytes ]

  unfoldable pub receive_loop : ℕ → ℕ → M Server MsgResult
  receive_loop zero remaining_bytes = out_of_rounds
  receive_loop (suc rounds) remaining_bytes =
      if remaining_bytes == 0 then pure MsgResult.success else do
        s ← get
        on_success (check_fd_msg s.client_fd) (
            after_part s.client_fd remaining_bytes
              λ read_bytes. receive_loop rounds ((remaining_bytes + 2 ^ 32 - read_bytes) % 2 ^ 32))

  -- The loop that sends the bytes of the size back.
  unfoldable pub send_loop : ℕ → List ℕ → M Server MsgResult
  send_loop zero to_send = out_of_rounds
  send_loop (suc rounds) [] = pure MsgResult.success
  send_loop (suc rounds) (x ∷ xs) = do
    s ← get
    sent ← call os (send s.client_fd (x ∷ xs))
    elim sent [
      | fail e ↦ set_errno e >> pure MsgResult.error
      | ok zero ↦ pure MsgResult.closed
      | ok (suc n) ↦ send_loop rounds (drop n xs)
    ]

  -- Both calls of ctime() use one buffer: it has the end time, and loses a character twice.
  unfoldable pub log : ℕ → ℕ → ℕ → ℕ → ℕ → M Server (Unit {0})
  log bytes start_time end_time start_granular end_granular = do
    s ← get
    call os (
        log_line (
          number 0
          ∷ descriptor s.client_fd
          ∷ ip s.client_addr.sin_addr
          ∷ number (os.ntohs s.client_addr.sin_port)
          ∷ number bytes
          ∷ cut_date end_time
          ∷ cut_date end_time
          ∷ seconds start_granular end_granular
          ∷ []))
    call os fflush

  -- What follows the size of the message.
  unfoldable pub receive_body : ℕ → M Server MsgResult
  receive_body msg_size = do
    start_time ← call os time
    start_granular ← call os clock
    on_success (receive_loop (suc msg_size) msg_size) (do
      end_time ← call os time
      end_granular ← call os clock
      log msg_size start_time end_time start_granular end_granular
      let reply = os.bytes32 (os.htonl msg_size)
      send_loop (suc (length reply)) reply)

  -- After the `recv` of the size: an uninitialised `msg_size` keeps the bytes that did not come.
  unfoldable pub after_header : List ℕ → Ret (List ℕ) → M Server MsgResult
  after_header junk (ok []) = pure MsgResult.closed
  after_header junk (ok (x ∷ xs)) =
      receive_body (os.ntohl (os.word32 (overlay (x ∷ xs) junk)) % 2 ^ 32)
  after_header junk (fail e) = recv_failure e

  unfoldable pub receive_message : M Server MsgResult
  receive_message = do
    s ← get
    on_success (check_fd_msg s.client_fd) (do
      header ← call os (recv_all s.client_fd 4)
      junk ← uninitialised os
      after_header junk header)
