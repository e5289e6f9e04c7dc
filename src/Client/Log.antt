-- ===== src/Client/Log.antt =====
-- client/src/log.c.
use scalable_server.Controller.Util.{open_file}
use scalable_server.Client.State.{Client}
use scalable_server.Os.{
  seconds, number, date, set_errno, put, log_line, ferror, fail, mutex_unlock, undefined,
  mutex_init, ok, give_up, feof, fclose, pure, fwrite, mutex_destroy, time, ◌>>◌, mutex_lock, call,
  get, ◌>>=◌, M, Platform,
}
use scalable_server.Prelude.{not, true, false, ◌||◌, ◌==◌, if◌then◌else◌, Bool, [], ◌∷◌, List, ℕ}
use Prim.Native.Nat.{ℕ}

-- struct logger; the elapsed time is the difference of two clocks.
pub record Logger : Type 0 where
  pub start_time : ℕ
  pub end_time : ℕ
  pub start_granular : ℕ
  pub end_granular : ℕ
  pub server_resp : ℕ
  pub data_size : ℕ
  pub thread_id : ℕ

abbrev pub log_file_name : List ℕ
log_file_name = b'l' ∷ b'o' ∷ b'g' ∷ b'.' ∷ b'c' ∷ b's' ∷ b'v' ∷ []

module _ (os : Platform) where
  -- What follows the opening of the file and of the mutex.
  unfoldable pub write_header : M Client Bool
  write_header = do
    call os
        (fwrite "TimeStamp, ThreadID, DataSize, ServerResponse, StartTime, EndTime, ElapsedTime\n")
    at_end ← call os feof
    if at_end then pure false else (do broken ← call os ferror; pure (not broken))

  unfoldable pub init_logger : M Client (Unit {0})
  init_logger = do
    s ← get
    if s.initialized then pure tt else (do
      file ← open_file os log_file_name
      locked ← call os mutex_init
      if locked then pure tt else give_up
      written ← write_header
      if written
          then (do t ← get; put (record t { initialized = true }))
          else (call os mutex_destroy >>= λ _. give_up))

  -- A failure to close the file is printed, and makes the result 0.
  unfoldable pub destroy_logger : M Client Bool
  destroy_logger = do
    s ← get
    ret ←
        if s.initialized
        then (do
          destroyed ← call os mutex_destroy
          closed ← call os fclose
          elim closed [ ok _ ↦ pure destroyed | fail e ↦ set_errno e >> pure true ])
        else pure true
    put (record s { initialized = false })
    pure ret

  module _ {S : Type 0} where
    -- The three calls of ctime() use one buffer, which has the time of the last. For a time of 0 the code
    -- writes to a string literal.
    unfoldable pub log : Logger → M S (Unit {0})
    log l = do
      time_stamp ← call os time
      if l.start_time == 0 || l.end_time == 0
          then undefined
          else call os (
              log_line (
                date l.end_time
                ∷ number l.thread_id
                ∷ number l.data_size
                ∷ number l.server_resp
                ∷ date l.end_time
                ∷ date l.end_time
                ∷ seconds l.start_granular l.end_granular
                ∷ []))

    unfoldable pub do_log : Logger → M S (Unit {0})
    do_log l = do
      locked ← call os mutex_lock
      if locked then pure tt else give_up
      log l
      unlocked ← call os mutex_unlock
      if unlocked then pure tt else give_up
