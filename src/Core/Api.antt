-- ===== src/Core/Api.antt =====
-- api_functions.h and core/include/objects.h: what the core and a server library share.
use scalable_server.Prelude.{ℕ, Option, none, some}
use scalable_server.Os.{SockaddrIn, fault, M}

-- What an API function returns: the next state. The core takes any other int as `unknown`.
pub data ServerStates : Type 0 where
  initialize_server run_server close_server error exit : ServerStates
  unknown : ℕ → ServerStates

-- `so` is the library's own state object. `none` is NULL throughout.
pub record CoreObject (S : Type 0) : Type 0 where
  pub mm : Option ℕ
  pub log_file : Option ℕ
  pub listen_addr : SockaddrIn
  pub so : Option S

-- Code that dereferences `co->so`.
abbrev pub on_so : {S A : Type 0} → M S A → M (CoreObject S) A
on_so {S} {A} m w = elim w.st.so [
  | none ↦ (fault, w)
  | some s ↦
      let r = m (record { trace = w.trace; errno = w.errno; st = s }) in
      (r.0, record { trace = r.1.trace; errno = r.1.errno; st = record w.st { so = some r.1.st } })
]

-- The three functions that `get_api` looks up in a library.
pub record ApiFunctions (S : Type 0) : Type 0 where
  pub initialize : M (CoreObject S) ServerStates
  pub run : M (CoreObject S) ServerStates
  pub close : M (CoreObject S) ServerStates
