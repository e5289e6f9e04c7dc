-- ===== src/Process/State.antt =====
-- process-server/include/objects.h, and what the parent changes in its pollfds.
use scalable_server.Prelude.{
  ltb, ◌&&◌, not, leb, suc, eqb_ℤ, ◌-◌, pos, is_zero, get_or, ◌^◌, Bool, [], ◌%◌, if◌then◌else◌,
  set, ◌∷◌, drop, Option, negate, ◌+◌, List, ℕ, ℤ,
}
use Prim.Native.Nat.{suc, ℕ}
use scalable_server.Os.{
  is_pollin, no_address, only_pollin, no_events, no_pollfd, SockaddrIn, Events, Pollfd,
}

abbrev pub num_child_processes : ℕ
num_child_processes = 8

abbrev pub connection_queue : ℕ
connection_queue = 100

abbrev pub max_connections : ℕ
max_connections = 5

-- `2 + MAX_CONNECTIONS`: the listening socket, the pipe, and the clients.
abbrev pub pollfds_size : ℕ
pollfds_size = 7

pub record ParentStruct : Type 0 where
  pub pollfds : List Pollfd
  pub client_addrs : List SockaddrIn
  pub num_connections : ℕ

pub record ChildStruct : Type 0 where
  pub client_fd_parent : ℤ
  pub client_fd_local : ℤ
  pub client_addr : SockaddrIn

-- A pair of descriptors is that of READ and that of WRITE. The semaphores are named in the calls.
pub record StateObject : Type 0 where
  pub child_pids : List ℕ
  pub domain_fds : ℤ × ℤ
  pub c_to_p_pipe_fds : ℤ × ℤ
  pub parent : Option ParentStruct
  pub child : Option ChildStruct
  -- Where the struct of the parent or of the child is.
  pub struct_pointer : ℕ

-- What a parent's functions reach: the state object, the parent struct and GOGO_PROCESS.
pub record Parent : Type 0 where
  pub domain_fds : ℤ × ℤ
  pub c_to_p_pipe_fds : ℤ × ℤ
  pub parent : ParentStruct
  pub open parent use *
  pub gogo_process : Bool

-- The same of a child.
pub record Child : Type 0 where
  pub domain_fds : ℤ × ℤ
  pub c_to_p_pipe_fds : ℤ × ℤ
  pub child : ChildStruct
  pub open child use *
  pub gogo_process : Bool

-- size_t arithmetic
abbrev pub increment : ℕ → ℕ
increment n = (n + 1) % 2 ^ 64

abbrev pub decrement : ℕ → ℕ
decrement n = (n + 2 ^ 64 - 1) % 2 ^ 64

-- The loop of `p_get_pollfd_index`, from `p`; 2 if no client pollfd is free.
unfoldable pub pollfd_index_from : ℕ → List Pollfd → ℕ
pollfd_index_from p [] = 2
pollfd_index_from p (x ∷ xs) = if is_zero x.fd then p else pollfd_index_from (suc p) xs

unfoldable pub p_get_pollfd_index : List Pollfd → ℕ
p_get_pollfd_index pollfds = pollfd_index_from 2 (drop 2 pollfds)

-- `pollfds->events = e`
abbrev pub set_listen : Events → List Pollfd → List Pollfd
set_listen e fds = set fds 0 (record (get_or fds 0 no_pollfd) { events = e })

-- What `p_accept_new_connection` changes once `accept` has answered.
unfoldable pub save_connection : ℕ → ℕ → SockaddrIn → ParentStruct → ParentStruct
save_connection pollfd_index new_cfd addr s =
    let fds = set s.pollfds pollfd_index (record (get_or s.pollfds pollfd_index no_pollfd) {
      fd = pos new_cfd;
      events = only_pollin;
    }) in
    let count = increment s.num_connections in
    record {
      client_addrs = set s.client_addrs (pollfd_index - 2) addr;
      num_connections = count;
      pollfds = if leb max_connections count then set_listen no_events fds else fds;
    }

-- What `p_remove_connection` changes.
unfoldable pub forget_connection : ℕ → ParentStruct → ParentStruct
forget_connection p s =
    let fds = set s.pollfds p no_pollfd in
    let count = decrement s.num_connections in
    let listen_pollfd = get_or fds 0 no_pollfd in
    record {
      client_addrs = set s.client_addrs (p - 2) no_address;
      num_connections = count;
      pollfds =
          if not (is_pollin listen_pollfd.events) && ltb count max_connections
          then set_listen only_pollin fds
          else fds;
    }

-- `pollfd->fd *= -1`
abbrev pub toggle : Pollfd → Pollfd
toggle p = record p { fd = negate p.fd }

-- The loop of `p_read_pipe_reenable_fd` over the client pollfds.
unfoldable pub reenable_from : ℤ → List Pollfd → List Pollfd
reenable_from fd [] = []
reenable_from fd (x ∷ xs) = (if eqb_ℤ x.fd (negate fd) then toggle x else x) ∷ reenable_from fd xs

-- The first two pollfds are those of the listening socket and of the pipe.
unfoldable pub reenable : ℤ → List Pollfd → List Pollfd
reenable fd (l ∷ q ∷ clients) = l ∷ q ∷ reenable_from fd clients
reenable fd pollfds = pollfds

-- Disable a pollfd until a child reports that it has read.
unfoldable pub disable : ℕ → List Pollfd → List Pollfd
disable p pollfds = set pollfds p (toggle (get_or pollfds p no_pollfd))

-- `pollfd->revents = 0`
unfoldable pub reset_revents : ℕ → List Pollfd → List Pollfd
reset_revents p pollfds =
    set pollfds p (record (get_or pollfds p no_pollfd) { revents = no_events })
