-- ===== src/Controller/Connection.antt =====
-- client-controller/src/connection.c. The results 0 and -1 are `true` and `false`.
use scalable_server.Controller.Util.{write_fully}
use scalable_server.Controller.State.{connected, Controller, StateObject}
use scalable_server.Os.{put, undefined, ◌>>◌, attempt, get, ◌>>=◌, pure, M, Platform}
use Prim.Native.Nat.{ℕ}
use scalable_server.Prelude.{
  ◌==◌, if◌then◌else◌, ◌++◌, take, ◌&&◌, ◌^◌, ◌%◌, none, true, ◌+◌, [], some, length, ◌∷◌, false, ℤ,
  Bool, List, ℕ, Option,
}

abbrev pub start : ℕ
start = 1

abbrev pub stop : ℕ
stop = 2

abbrev pub is_some {ℓ} : {A : Type ℓ} → Option A → Bool
is_some none = false
is_some (some x) = true

module _ (os : Platform) where
  -- The loop over the clients: the result is that of the last write.
  unfoldable pub send_each : List ℤ → List ℕ → Bool → M Controller Bool
  send_each [] bytes result = pure result
  send_each (fd ∷ fds) bytes result =
      attempt (write_fully os fd bytes) >>= λ sent. send_each fds bytes (is_some sent)

  unfoldable pub send_start : M Controller Bool
  send_start = do
    s ← get
    result ← send_each (connected s.so) (os.bytes16 (os.htons start)) true
    t ← get
    put (record t { so = record t.so { started = true } })
    pure result

  unfoldable pub send_stop : M Controller Bool
  send_stop = do
    s ← get
    result ← send_each (connected s.so) (os.bytes16 (os.htons stop)) true
    t ← get
    put (record t { so = record t.so { started = false } })
    pure result

  -- The writes to one client; each runs whatever happened to those before it.
  unfoldable pub send_all : ℤ → List (List ℕ) → Bool → M Controller Bool
  send_all fd [] result = pure result
  send_all fd (part ∷ parts) result =
      attempt (write_fully os fd part) >>= λ sent. send_all fd parts (result && is_some sent)

  unfoldable pub send_data_to : List ℤ → List (List ℕ) → Bool → M Controller Bool
  send_data_to [] parts result = pure result
  send_data_to (fd ∷ fds) parts result =
      send_all fd parts result >>= λ result'. send_data_to fds parts result'

  -- The port, the size of the address, the address with its NUL, the size of the data, and the data.
  unfoldable pub data_parts : StateObject → List ℕ → List (List ℕ)
  data_parts s contents =
      os.bytes16 (os.htons s.server_port)
      ∷ os.bytes32 (os.htonl ((length s.server_ip + 1) % 2 ^ 32))
      ∷ take ((length s.server_ip + 1) % 2 ^ 32) (s.server_ip ++ 0 ∷ [])
      ∷ os.bytes32 (os.htonl (s.data_size % 2 ^ 32))
      ∷ take s.data_size contents
      ∷ []

  -- A write of data that is not there would read through NULL.
  unfoldable pub send_data : M Controller Bool
  send_data = do
    s ← get
    elim s.contents [
      | none ↦
          if s.data_size == 0
          then send_data_to (connected s.so) (data_parts s.so []) true
          else undefined
      | some contents ↦ send_data_to (connected s.so) (data_parts s.so contents) true
    ]
