-- ===== src/OneToOne/Serve.antt =====
-- `accept_conn` and `handle_client` of one-to-one/src/one_to_one.c, and the loop of `run_server` in
-- one-to-one/src/api_functions.c.
use scalable_server.OneToOne.Message.{receive_message, check_fd}
use scalable_server.Core.Api.{ServerStates}
use scalable_server.OneToOne.State.{MsgResult, ClientResult, Server}
use Prim.Native.Nat.{suc, ℕ}
use scalable_server.Prelude.{pos, zero, [], ◌∷◌, suc, ℤ, ℕ}
use scalable_server.Os.{
  eintr, set_errno, fail, close, pure, put, ◌>>◌, ignore, ok, write, accept, get, call, ◌>>=◌,
  out_of_rounds, M, Platform,
}

module _ (os : Platform) where
  -- The address that `accept` gives goes to a local variable, and not to `client_addr`.
  unfoldable pub accept_conn : ℤ → M Server ClientResult
  accept_conn listen_fd = check_fd os listen_fd >>= elim [
    | ClientResult.success ↦ do
      accepted ← call os (accept listen_fd)
      elim accepted [
        | ok (fd, addr) ↦ do
          s ← get
          put (record s { so = record s.so { client_fd = pos fd } })
          pure ClientResult.success
        | fail e ↦
            set_errno e
            >> elim e [ eintr ↦ pure ClientResult.termination | e' ↦ pure ClientResult.error ]
      ]
    | ClientResult.error ↦ pure ClientResult.error
    | ClientResult.termination ↦ pure ClientResult.termination
  ]

  unfoldable pub handle_client : ℕ → M Server ClientResult
  handle_client zero = out_of_rounds
  handle_client (suc rounds) = receive_message os >>= elim [
    | MsgResult.success ↦ handle_client rounds
    | MsgResult.error ↦ pure ClientResult.error
    | MsgResult.termination ↦ pure ClientResult.termination
    | MsgResult.closed ↦ pure ClientResult.success
  ]

  -- The loop of `run_server`; `messages` bounds the messages of a client.
  unfoldable pub serve : ℕ → ℕ → M Server ServerStates
  serve zero messages = out_of_rounds
  serve (suc rounds) messages = do
    s ← get
    call os (close s.client_fd) >>= ignore
    accept_conn s.listen_fd >>= elim [
      | ClientResult.termination ↦ pure ServerStates.close_server
      | ClientResult.error ↦ pure ServerStates.error
      | ClientResult.success ↦ handle_client messages >>= elim [
        | ClientResult.success ↦ serve rounds messages
        | ClientResult.error ↦ pure ServerStates.error
        | ClientResult.termination ↦ pure ServerStates.close_server
      ]
    ]

  -- The handler of SIGINT: it makes the self-pipe readable, which `check_fd` sees.
  unfoldable pub handle_sigint : M Server (Unit {0})
  handle_sigint = do s ← get; call os (write s.self_pipe.1 (b'x' ∷ [])) >>= ignore
