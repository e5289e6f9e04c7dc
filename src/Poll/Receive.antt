-- ===== src/Poll/Receive.antt =====
-- `poll_recv_and_log` and `log` of poll-server/src/poll_server.c.
use scalable_server.Prelude.{
  ℕ, zero, suc, ◌+◌, ◌-◌, ◌%◌, ◌^◌, ℤ, pos, not, ◌&&◌, ltb, ◌==◌, [], ◌∷◌, length, get_or,
  if◌then◌else◌,
}
use scalable_server.Os.{
  Platform, M, Field, text, number, descriptor, ip, date, seconds, ok, fail, pure, give_up,
  undefined, out_of_rounds, ◌>>=◌, ◌>>◌, get, check, non_null, call, recv, send, malloc, free, time,
  clock, log_line, no_address, uninitialised, overlay, set_errno,
}
use scalable_server.Poll.State.{Server}

-- sizeof(buffer), of a pointer
abbrev pub pointer_size : ℕ
pointer_size = 8

-- `(time_str) ? time_str : "NULL"` for a time, where ctime() ran again for `later`: it has one buffer.
abbrev pub date_or_null : ℕ → ℕ → Field
date_or_null t later = if t == 0 then text "NULL" else if later == 0 then date t else date later

module _ (os : Platform) where
  -- The body of the loop that receives the message: at most eight bytes, written at `bytes_read` in a
  -- buffer of `bytes_to_read + 1` bytes. The result is what `recv` returns.
  unfoldable pub recv_once : ℤ → ℕ → ℕ → ℕ → M Server ℕ
  recv_once fd buffer bytes_to_read bytes_read = call os (recv fd pointer_size) >>= elim [
    | ok message ↦
        if ltb (bytes_to_read + 1) (bytes_read + length message)
        then undefined
        else pure (length message)
    | fail e ↦ do set_errno e; call os (free buffer); give_up
  ]

  -- `bytes` is what the last call returned.
  unfoldable pub recv_loop : ℕ → ℤ → ℕ → ℕ → ℕ → ℕ → M Server ℕ
  recv_loop zero fd buffer bytes_to_read bytes bytes_read = out_of_rounds
  recv_loop (suc rounds) fd buffer bytes_to_read bytes bytes_read =
      if ltb bytes_read bytes_to_read && not (bytes == 0)
      then (recv_once fd buffer bytes_to_read bytes_read >>= λ n.
          recv_loop rounds fd buffer bytes_to_read n ((bytes_read + n) % 2 ^ 32))
      else pure bytes_read

  unfoldable pub log : ℕ → ℕ → ℕ → ℕ → ℕ → ℕ → M Server (Unit {0})
  log fd_num bytes start_time end_time start_granular end_granular = do
    s ← get
    let conn_index = fd_num - 1
    let addr = get_or s.client_addr conn_index no_address
    call os (
        log_line (
          number conn_index
          ∷ descriptor (get_or s.client_fd conn_index (pos 0))
          ∷ ip addr.sin_addr
          ∷ number (os.ntohs addr.sin_port)
          ∷ number bytes
          ∷ date_or_null start_time end_time
          ∷ date_or_null end_time 0
          ∷ seconds start_granular end_granular
          ∷ []))

  -- Each round of `recv_loop` but the last takes a byte that fits in the buffer, which holds one byte more
  -- than the message.
  unfoldable pub poll_recv_and_log : ℤ → ℕ → M Server (Unit {0})
  poll_recv_and_log fd fd_num = do
    header ← check (← call os (recv fd 4))
    junk ← uninitialised os
    let bytes_to_read = os.ntohl (os.word32 (overlay header junk)) % 2 ^ 32
    buffer ← non_null (← call os (malloc (bytes_to_read + 1)))
    start_time ← call os time
    start_granular ← call os clock
    bytes_read ← recv_loop (suc (suc bytes_to_read)) fd buffer bytes_to_read (length header) 0
    end_granular ← call os clock
    end_time ← call os time
    log fd_num bytes_read start_time end_time start_granular end_granular
    call os (free buffer)
    sent ← check (← call os (send fd (os.bytes32 (os.htonl bytes_read))))
    pure tt
