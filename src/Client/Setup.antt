-- ===== src/Client/Setup.antt =====
-- client/src/state.c.
use scalable_server.Client.Util.{init_connection}
use scalable_server.Client.Log.{destroy_logger, init_logger}
use scalable_server.Controller.Util.{open_file, tcp_socket, init_addr, parse_port}
use scalable_server.Client.Thread.{stop_threads, deref}
use scalable_server.Client.State.{zero_state, Client, InitStateParams}
use scalable_server.Os.{
  set_errno, fail, ok, fclose, overlay, free, ignore, close, malloc, non_null, give_up, pure, stat,
  fread, put, ◌>>◌, call, uninitialised, get, check, ◌>>=◌, M, Platform,
}
use scalable_server.Prelude.{
  ◌&&◌, pos, length, [], ◌==◌, ◌∷◌, ltb, not, ◌++◌, is_zero, ◌||◌, if◌then◌else◌, none, false, some,
  true, ℕ, Bool, List, Option,
}

abbrev pub is_null {ℓ} : {A : Type ℓ} → Option A → Bool
is_null none = true
is_null (some x) = false

module _ (os : Platform) where
  unfoldable pub validate_params : InitStateParams → M Client (Unit {0})
  validate_params params = do
    s ← get
    if s.standalone
        then (if is_null params.server_ip
              || (is_null params.server_port || is_null params.data_file_name)
            then give_up
            else pure tt)
        else (if is_null params.controller_ip || is_null params.controller_port
            then give_up
            else pure tt)

  -- What follows the opening of the file; the result is whether `load_data` succeeds.
  unfoldable pub read_file : ℕ → ℕ → M Client Bool
  read_file pointer st_size = do
    junk ← uninitialised os
    bytes ← call os (fread st_size)
    let complete = not (ltb (length bytes) st_size)
    s ← get
    put (record s {
      so = record s.so {
        contents = some (record { pointer = pointer; bytes = overlay bytes junk });
        data_size = st_size;
      };
    })
    closed ← call os fclose
    elim closed [ ok _ ↦ pure complete | fail e ↦ set_errno e >> pure false ]

  unfoldable pub load_data : List ℕ → M Client (Unit {0})
  load_data file_name = do
    st_size ← check (← call os (stat file_name))
    pointer ← non_null (← call os (malloc st_size))
    junk ← uninitialised os
    s ← get
    put (record s {
      so = record s.so { contents = some (record { pointer = pointer; bytes = junk }) };
    })
    file ← open_file os file_name
    loaded ← read_file pointer st_size
    if loaded then pure tt else give_up

  unfoldable pub init_standalone : InitStateParams → M Client (Unit {0})
  init_standalone params = do
    server_ip ← deref params.server_ip
    s ← get
    put (record s {
      so = record s.so { server_ip = some (record { pointer = 0; bytes = server_ip ++ 0 ∷ [] }) };
    })
    server_port ← parse_port os (← deref params.server_port)
    t ← get
    put (record t { so = record t.so { server_port = server_port } })
    load_data (← deref params.data_file_name)

  unfoldable pub init_controlled : InitStateParams → M Client (Unit {0})
  init_controlled params = do
    controller_ip ← deref params.controller_ip
    s ← get
    put (record s { so = record s.so { controller_ip = controller_ip } })
    controller_port ← parse_port os (← deref params.controller_port)
    t ← get
    put (record t { so = record t.so { controller_port = controller_port } })
    controller_addr ← init_addr os controller_ip controller_port
    fd ← tcp_socket os
    u ← get
    put (record u {
      so = record u.so { controller_addr = controller_addr; controller_fd = pos fd };
    })
    init_connection os (pos fd) controller_addr

  unfoldable pub init_state : InitStateParams → M Client (Unit {0})
  init_state params = do
    s ← get
    put (record s {
      so = record zero_state {
        wait_period_sec = params.wait_period_sec;
        standalone = not (params.wait_period_sec == 0);
      };
    })
    validate_params params
    if not (params.wait_period_sec == 0) then init_standalone params else init_controlled params
    init_logger os

  -- close() never returns the 1 that its result is compared with.
  unfoldable pub destroy_state : M Client Bool
  destroy_state = do
    ret ← stop_threads os
    s ← get
    if is_zero s.controller_fd then pure tt else (call os (close s.controller_fd) >>= ignore)
    elim s.contents [ none ↦ pure tt | some block ↦ call os (free block.pointer) ]
    if s.standalone
        then pure tt
        else elim s.server_ip [ none ↦ pure tt | some block ↦ call os (free block.pointer) ]
    logged ← destroy_logger os
    pure (ret && logged)
