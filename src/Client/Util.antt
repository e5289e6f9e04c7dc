-- ===== src/Client/Util.antt =====
-- client/src/util.c. What has the same text in client-controller/src/util.c is shared with Controller.Util.
use Prim.Native.Nat.{suc, ℕ}
use scalable_server.Prelude.{zero, ◌++◌, ◌+◌, ◌-◌, length, ltb, [], if◌then◌else◌, suc, List, ℕ, ℤ}
use scalable_server.Os.{
  pure, undefined, ok, give_up, ◌>>◌, set_errno, fail, read, close, connect, call, ◌>>=◌, check,
  out_of_rounds, M, SockaddrIn, Platform,
}

module _ (os : Platform) {S : Type 0} where
  -- The loop of `read_fully` into a buffer of `room` bytes, with the bytes read so far.
  unfoldable pub read_loop : ℕ → ℤ → ℕ → ℕ → List ℕ → M S (List ℕ)
  read_loop zero fd room size got = out_of_rounds
  read_loop (suc rounds) fd room size got =
      if ltb (length got) size
      then (call os (read fd (size - length got)) >>= elim [
        | fail e ↦ set_errno e >> give_up
        | ok bytes ↦
            if ltb room (length got + length bytes)
            then undefined
            else read_loop rounds fd room size (got ++ bytes)
      ])
      else pure got

  unfoldable pub read_fully : ℤ → ℕ → ℕ → M S (List ℕ)
  read_fully fd room size = read_loop (suc size) fd room size []

  unfoldable pub close_fd : ℤ → M S (Unit {0})
  close_fd sock = do check (← call os (close sock))

  unfoldable pub init_connection : ℤ → SockaddrIn → M S (Unit {0})
  init_connection sock_fd addr = do check (← call os (connect sock_fd addr))
