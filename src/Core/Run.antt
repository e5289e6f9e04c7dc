-- ===== src/Core/Run.antt =====
-- core/src/main.c (`run_core`, `run`) and core/src/util.c.
use Prim.Native.String.{String}
use scalable_server.Prelude.{
  ℕ, zero, suc, Bool, true, false, ◌||◌, Option, none, some, if◌then◌else◌,
}
use scalable_server.Os.{
  Platform, M, ok, fail, pure, give_up, out_of_rounds, ◌>>=◌, ◌>>◌, get, put, ignore, non_null,
  attempt, set_errno, call, no_address, init_mem_manager, free_mem_manager, fopen, fclose,
  inet_pton, dlopen, dlsym, dlclose,
}
use scalable_server.Core.Api.{ServerStates, CoreObject, ApiFunctions}

-- memset to 0
abbrev pub zero_core : {S : Type 0} → CoreObject S
zero_core = record { mm = none; log_file = none; listen_addr = no_address; so = none }

-- The loop of `run_core`; `true` is EXIT_SUCCESS.
module _ {S : Type 0} (api : ApiFunctions S) where
  unfoldable pub core_loop : ℕ → ServerStates → Bool → M (CoreObject S) Bool
  core_loop zero next_state exit_status = out_of_rounds
  core_loop (suc rounds) next_state exit_status = elim next_state [
    | ServerStates.initialize_server ↦ api.initialize >>= λ s. core_loop rounds s exit_status
    | ServerStates.run_server ↦ api.run >>= λ s. core_loop rounds s exit_status
    | ServerStates.close_server ↦ api.close >>= λ s. core_loop rounds s exit_status
    | ServerStates.error ↦ api.close >>= λ s. core_loop rounds s false
    | ServerStates.exit ↦ pure exit_status
    | ServerStates.unknown _ ↦ pure exit_status
  ]

is_null : Option ℕ → Bool
is_null none = true
is_null (some _) = false

module _ (os : Platform) {S : Type 0} where
  unfoldable pub assemble_listen_addr : ℕ → String → M (CoreObject S) (Unit {0})
  assemble_listen_addr port_num ip_addr = do
    co ← get
    put (record co { listen_addr = record { sin_port = os.htons port_num; sin_addr = 0 } })
    parsed ← call os (inet_pton ip_addr)
    elim parsed [
      | ok answer ↦ elim answer [
        | some addr ↦
            put
              (record co { listen_addr = record { sin_port = os.htons port_num; sin_addr = addr } })
        | none ↦ give_up
      ]
      | fail e ↦ do set_errno e; give_up
    ]

  unfoldable pub setup_core_object : ℕ → String → M (CoreObject S) (Unit {0})
  setup_core_object port_num ip_addr = do
    put zero_core
    mm ← non_null (← call os init_mem_manager)
    put (record zero_core { mm = some mm })
    log_file ← non_null (← call os (fopen "log.csv"))
    put (record zero_core { mm = some mm; log_file = some log_file })
    assemble_listen_addr port_num ip_addr

  unfoldable pub destroy_core_object : M (CoreObject S) (Unit {0})
  destroy_core_object = do
    co ← get
    elim co.log_file [ none ↦ pure tt | some _ ↦ call os fclose >>= ignore ]
    call os free_mem_manager

  unfoldable pub close_lib : M (CoreObject S) (Unit {0})
  close_lib = call os dlclose >>= ignore

  -- Whether the library opened and has the three functions.
  unfoldable pub get_api : String → M (CoreObject S) Bool
  unfolding is_null
  get_api lib_name = do
    lib ← call os (dlopen lib_name)
    elim lib [
      | none ↦ pure false
      | some _ ↦ do
        initialize ← call os (dlsym "initialize_server")
        run ← call os (dlsym "run_server")
        close ← call os (dlsym "close_server")
        let get_func_err = is_null initialize || (is_null run || is_null close)
        if get_func_err then (close_lib >>= λ _. pure false) else pure true
    ]

  unfoldable pub run_core : ApiFunctions S → ℕ → String → M (CoreObject S) Bool
  run_core api rounds lib_name = do
    lib ← get_api lib_name
    elim lib [
      | false ↦ pure false
      | true ↦ do
        exit_status ← core_loop api rounds ServerStates.initialize_server true
        close_lib
        pure exit_status
    ]

  -- `run` of main.c, the settings given; `true` is EXIT_SUCCESS.
  unfoldable pub run : ApiFunctions S → ℕ → String → ℕ → String → M (CoreObject S) Bool
  run api rounds lib_name port_num ip_addr = do
    set_up ← attempt (setup_core_object port_num ip_addr)
    elim set_up [
      | none ↦ pure false
      | some _ ↦ do ret_val ← run_core api rounds lib_name; destroy_core_object; pure ret_val
    ]
