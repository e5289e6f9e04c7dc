-- ===== src/Controller/Setup.antt =====
-- client-controller/src/state.c.
use scalable_server.Controller.Connection.{send_stop}
use scalable_server.Controller.Util.{init_addr, open_file, parse_port, tcp_socket, init_addr_any}
use scalable_server.Controller.State.{connected, zero_state, Controller, InitStateParams}
use scalable_server.Prelude.{
  none, false, some, length, pos, [], ltb, is_zero, true, not, if◌then◌else◌, ◌∷◌, Bool, ℤ, List, ℕ,
}
use scalable_server.Os.{
  free, set_errno, fail, ok, fclose, listen, overlay, bind, give_up, setsockopt, malloc, ignore,
  put, stat, fread, close, call, uninitialised, ◌>>◌, pure, check, get, non_null, ◌>>=◌, M,
  Platform,
}
use Prim.Native.Nat.{ℕ}

abbrev pub backlog : ℕ
backlog = 10

module _ (os : Platform) where
  unfoldable pub validate_params : {S : Type 0} → InitStateParams → M S (List ℕ × List ℕ)
  validate_params params = do
    server_ip ← non_null params.server_ip
    data_file_name ← non_null params.data_file_name
    pure (server_ip, data_file_name)

  -- What follows the opening of the file; the result is whether `load_data` succeeds.
  unfoldable pub read_file : ℕ → M Controller Bool
  read_file st_size = do
    junk ← uninitialised os
    bytes ← call os (fread st_size)
    let complete = not (ltb (length bytes) st_size)
    s ← get
    put (record s {
      so = record s.so { contents = some (overlay bytes junk); data_size = st_size };
    })
    closed ← call os fclose
    elim closed [ ok _ ↦ pure complete | fail e ↦ set_errno e >> pure false ]

  unfoldable pub load_data : List ℕ → M Controller (Unit {0})
  load_data file_name = do
    st_size ← check (← call os (stat file_name))
    pointer ← non_null (← call os (malloc st_size))
    junk ← uninitialised os
    s ← get
    put (record s { so = record s.so { contents = some junk; data_pointer = pointer } })
    file ← open_file os file_name
    loaded ← read_file st_size
    if loaded then pure tt else give_up

  unfoldable pub start_listen : M Controller (Unit {0})
  start_listen = do
    s ← get
    listen_addr ← init_addr_any os s.listen_port
    put (record s { so = record s.so { listen_addr = listen_addr } })
    fd ← tcp_socket os
    t ← get
    put (record t { so = record t.so { listen_fd = pos fd } })
    call os (setsockopt (pos fd)) >>= ignore
    bound ← check (← call os (bind (pos fd) listen_addr))
    listened ← check (← call os (listen (pos fd) backlog))
    pure tt

  unfoldable pub init_state : InitStateParams → M Controller (Unit {0})
  init_state params = do
    names ← validate_params params
    s ← get
    put (record s {
      so = record zero_state { wait_period_sec = params.wait_period_sec; server_ip = names.0 };
    })
    listen_port ← parse_port os params.listen_port
    t ← get
    put (record t { so = record t.so { listen_port = listen_port } })
    server_port ← parse_port os params.server_port
    u ← get
    put (record u { so = record u.so { server_port = server_port } })
    server_addr ← init_addr os names.0 server_port
    load_data names.1
    start_listen

  -- The loop that closes the clients. The result of each test is 0 or 1, and never -1.
  unfoldable pub close_clients : List ℤ → M Controller (Unit {0})
  close_clients [] = pure tt
  close_clients (fd ∷ fds) = (call os (close fd) >>= ignore) >>= λ _. close_clients fds

  unfoldable pub destroy_state : M Controller Bool
  destroy_state = do
    s ← get
    error ← if s.started then send_stop os else pure true
    if is_zero s.listen_fd then pure tt else (call os (close s.listen_fd) >>= ignore)
    close_clients (connected s.so)
    elim s.contents [ none ↦ pure tt | some _ ↦ call os (free s.data_pointer) ]
    pure error
