-- ===== src/Controller/State.antt =====
-- client-controller/include/state.h.
use scalable_server.Os.{SockaddrIn, no_address}
use Prim.Native.Nat.{ℕ}
use scalable_server.Prelude.{false, none, replicate, Bool, [], take, pos, ℤ, Option, List, ℕ}

abbrev pub max_conns : ℕ
max_conns = 500

-- A string is the list of its bytes, without the NUL; `none` is NULL.
pub record InitStateParams : Type 0 where
  pub listen_port : List ℕ
  pub server_ip : Option (List ℕ)
  pub server_port : List ℕ
  pub data_file_name : Option (List ℕ)
  pub wait_period_sec : ℕ

pub record StateObject : Type 0 where
  pub listen_port : ℕ
  pub listen_addr : SockaddrIn
  pub listen_fd : ℤ
  pub server_ip : List ℕ
  pub server_port : ℕ
  pub accepted_fds : List ℤ
  pub num_conns : ℕ
  pub contents : Option (List ℕ)  -- the memory that the field `data` points to
  pub data_pointer : ℕ  -- and where it is
  pub data_size : ℕ
  pub started : Bool
  pub wait_period_sec : ℕ

-- With the state, the global `sig_quit`.
pub record Controller : Type 0 where
  pub so : StateObject
  pub open so use *
  pub sig_quit : Bool

-- memset to 0
abbrev pub zero_state : StateObject
zero_state = record {
  listen_port = 0;
  listen_addr = no_address;
  listen_fd = pos 0;
  server_ip = [];
  server_port = 0;
  accepted_fds = replicate max_conns (pos 0);
  num_conns = 0;
  contents = none;
  data_pointer = 0;
  data_size = 0;
  started = false;
  wait_period_sec = 0;
}

-- The clients, in the order in which they connected.
abbrev pub connected : StateObject → List ℤ
connected s = take s.num_conns s.accepted_fds
