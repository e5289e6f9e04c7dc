-- ===== src/OneToOne/State.antt =====
-- one-to-one/include/objects.h and the result codes of one_to_one.h and one_to_one.c.
use scalable_server.Os.{SockaddrIn, no_address}
use scalable_server.Prelude.{[], ◌||◌, eqb_ℤ, ◌∷◌, false, Bool, List, pos, ℤ}

pub record StateObject : Type 0 where
  pub listen_fd : ℤ
  pub client_fd : ℤ
  pub client_addr : SockaddrIn

-- With the state object, the global `self_pipe`: its read end and its write end.
pub record Server : Type 0 where
  pub so : StateObject
  pub open so use *
  pub self_pipe : ℤ × ℤ

-- enum handle_client_result
pub data ClientResult : Type 0 where
  error termination success : ClientResult

-- enum msg_result
pub data MsgResult : Type 0 where
  success error closed termination : MsgResult

-- calloc'ed
abbrev pub zero_state : StateObject
zero_state = record { listen_fd = pos 0; client_fd = pos 0; client_addr = no_address }

abbrev pub contains : ℤ → List ℤ → Bool
contains fd [] = false
contains fd (x ∷ xs) = eqb_ℤ x fd || contains fd xs
