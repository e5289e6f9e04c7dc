-- ===== src/Client/State.antt =====
-- client/include/state.h and client/include/handle.h, with the globals of thread.c, log.c and run.c.

use Prim.Native.Nat.{ℕ}
use scalable_server.Os.{no_address, SockaddrIn}
use scalable_server.Prelude.{
  ◌∷◌, false, ◌==◌, pos, if◌then◌else◌, Bool, none, some, ℤ, [], ℕ, Option, List,
}

-- A string is the list of its bytes, without the NUL; `none` is NULL.
pub record InitStateParams : Type 0 where
  pub server_ip : Option (List ℕ)
  pub controller_ip : Option (List ℕ)
  pub server_port : Option (List ℕ)
  pub controller_port : Option (List ℕ)
  pub data_file_name : Option (List ℕ)
  pub wait_period_sec : ℕ

-- A block of memory and where it is.
pub record Block : Type 0 where
  pub pointer : ℕ
  pub bytes : List ℕ

-- `server_ip` is memory that ends with a NUL, and `contents` is the field `data`.
pub record StateObject : Type 0 where
  pub controller_port : ℕ
  pub controller_ip : List ℕ
  pub controller_addr : SockaddrIn
  pub controller_fd : ℤ
  pub server_port : ℕ
  pub server_ip : Option Block
  pub contents : Option Block
  pub data_size : ℕ
  pub wait_period_sec : ℕ
  pub standalone : Bool

-- thread.c: the array of thread ids, the threads that run, and the processors.
pub record Threads : Type 0 where
  pub t_ids : Option Block
  pub n_threads : ℕ
  pub n_processors : ℤ

pub record Client : Type 0 where
  pub so : StateObject
  pub open so use *
  pub threads : Threads
  pub open threads use *
  pub initialized : Bool  -- of log.c
  pub sig_quit : Bool  -- of run.c

-- struct handle_args, and where it and its data are
pub record HandleArgs : Type 0 where
  pub server_addr : SockaddrIn
  pub contents : Block
  pub data_size : ℕ
  pub thread_id : ℕ
  pub pointer : ℕ

-- memset to 0
abbrev pub zero_state : StateObject
zero_state = record {
  controller_port = 0;
  controller_ip = [];
  controller_addr = no_address;
  controller_fd = pos 0;
  server_port = 0;
  server_ip = none;
  contents = none;
  data_size = 0;
  wait_period_sec = 0;
  standalone = false;
}

abbrev pub bytes_of : Option Block → List ℕ
bytes_of none = []
bytes_of (some block) = block.bytes

-- The string at the start of memory: what stands before the first NUL.
abbrev pub c_string : List ℕ → List ℕ
c_string [] = []
c_string (x ∷ xs) = if x == 0 then [] else x ∷ c_string xs
