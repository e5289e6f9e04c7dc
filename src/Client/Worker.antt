-- ===== src/Client/Worker.antt =====
-- client/src/handle.c: what each thread does.
use scalable_server.Client.Log.{do_log}
use scalable_server.Controller.Util.{write_fully, tcp_socket}
use scalable_server.Client.Util.{init_connection, read_fully, close_fd}
use scalable_server.Client.State.{HandleArgs}
use scalable_server.Os.{
  sleep, clock, time, pthread_testcancel, pure, free, call, uninitialised, ◌>>◌, ◌>>=◌, attempt,
  out_of_rounds, M, Platform,
}
use scalable_server.Prelude.{false, pos, zero, take, true, ◌^◌, some, suc, none, ◌%◌, Option, ℕ, ℤ}

-- Whether a thread goes on, with its last socket, or has returned.
pub data Step : Type 0 where
  goes_on : ℤ → Step
  returned : Step

module _ (os : Platform) {S : Type 0} where
  unfoldable pub hargs_cleanup_handler : HandleArgs → M S (Unit {0})
  hargs_cleanup_handler h_args = do
    call os (free h_args.contents.pointer)
    call os (free h_args.pointer)

  -- `close_fd(server_sock); return NULL`
  unfoldable pub close_and_return : ℤ → M S Step
  close_and_return server_sock = attempt (close_fd os server_sock) >>= λ _. pure returned

  -- The exchange over a connection: the size, the data, and the answer of the server; `none` if a part
  -- of it fails.
  unfoldable pub exchange : ℤ → HandleArgs → M S (Option ℕ)
  exchange server_sock h_args = attempt (do
    let data_size = h_args.data_size % 2 ^ 32
    write_fully os server_sock (os.bytes32 (os.htonl data_size))
    write_fully os server_sock (take data_size h_args.contents.bytes)
    server_resp ← read_fully os server_sock 4 4
    pure (os.ntohl (os.word32 server_resp) % 2 ^ 32))

  -- What follows a connection.
  unfoldable pub talk : ℤ → HandleArgs → ℕ → ℕ → M S Step
  talk server_sock h_args start_time start_granular = exchange server_sock h_args >>= elim [
    | none ↦ close_and_return server_sock
    | some server_resp ↦ do
      closed ← attempt (close_fd os server_sock)
      end_time ← call os time
      end_granular ← call os clock
      logged ← attempt (
          do_log os (record {
            start_time = start_time;
            end_time = end_time;
            start_granular = start_granular;
            end_granular = end_granular;
            server_resp = server_resp;
            data_size = h_args.data_size % 2 ^ 32;
            thread_id = h_args.thread_id;
          }))
      elim logged [ none ↦ pure returned | some _ ↦ pure (goes_on server_sock) ]
  ]

  -- One round, up to `pthread_testcancel`; the variable `server_sock` keeps its value.
  unfoldable pub worker_round : HandleArgs → ℤ → M S Step
  worker_round h_args server_sock = attempt (tcp_socket os) >>= elim [
    | none ↦ close_and_return server_sock
    | some fd ↦ do
      start_time ← call os time
      start_granular ← call os clock
      connected ← attempt (init_connection os (pos fd) h_args.server_addr)
      elim connected [
        | none ↦ do
          closed ← attempt (close_fd os (pos fd))
          call os (sleep 1)
          pure (goes_on (pos fd))
        | some _ ↦ talk (pos fd) h_args start_time start_granular
      ]
  ]

  -- The loop. A thread is cancelled at pthread_testcancel() and then runs its handler; a `return` does not.
  unfoldable pub worker_loop : ℕ → HandleArgs → ℤ → M S (Unit {0})
  worker_loop zero h_args server_sock = out_of_rounds
  worker_loop (suc rounds) h_args server_sock = worker_round h_args server_sock >>= elim [
    | returned ↦ pure tt
    | goes_on fd ↦
        call os pthread_testcancel
        >>= elim [ true ↦ worker_loop rounds h_args fd | false ↦ hargs_cleanup_handler h_args ]
  ]

  -- `server_sock` is not initialised.
  unfoldable pub handle : ℕ → HandleArgs → M S (Unit {0})
  handle rounds h_args = do junk ← uninitialised os; worker_loop rounds h_args (os.int32 junk)
