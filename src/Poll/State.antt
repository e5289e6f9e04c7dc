-- ===== src/Poll/State.antt =====
-- poll-server/include/objects.h, and the changes that poll-server/src/poll_server.c makes to its state
-- when a client comes or goes.
use scalable_server.Prelude.{
  ℕ, suc, ◌+◌, ◌-◌, ◌%◌, ◌^◌, ℤ, pos, is_zero, Bool, not, ◌&&◌, ltb, leb, if◌then◌else◌, List, [],
  ◌∷◌, get_or, set, replicate,
}
use scalable_server.Os.{
  Events, no_events, only_pollin, is_pollin, Pollfd, no_pollfd, SockaddrIn, no_address,
}

abbrev pub max_connections : ℕ
max_connections = 5

abbrev pub connection_queue : ℕ
connection_queue = 100

pub record StateObject : Type 0 where
  pub listen_fd : ℤ
  pub client_fd : List ℤ
  pub client_addr : List SockaddrIn
  pub num_connections : ℕ

-- The state object, the pollfds of `run_poll_server`, and the global GOGO_POLL.
pub record Server : Type 0 where
  pub so : StateObject
  pub open so use *
  pub pollfds : List Pollfd
  pub gogo_poll : Bool

-- size_t arithmetic
abbrev pub increment : ℕ → ℕ
increment n = (n + 1) % 2 ^ 64

abbrev pub decrement : ℕ → ℕ
decrement n = (n + 2 ^ 64 - 1) % 2 ^ 64

-- The loop of `get_conn_index` from `i`; `start` is what it returns if it finds no zero.
unfoldable pub conn_index_from : ℕ → List ℤ → ℕ → ℕ
conn_index_from i [] start = start
conn_index_from i (x ∷ xs) start = if is_zero x then i else conn_index_from (suc i) xs start

unfoldable pub get_conn_index : List ℤ → ℕ
unfolding conn_index_from
get_conn_index client_fds = conn_index_from 0 client_fds 0

-- `pollfds->events = e`
abbrev pub set_listen : Events → List Pollfd → List Pollfd
set_listen e fds = set fds 0 (record (get_or fds 0 no_pollfd) { events = e })

-- What `poll_accept` changes once `accept` has answered `new_cfd` and `addr`.
unfoldable pub save_connection : ℕ → ℕ → SockaddrIn → Server → Server
save_connection conn_index new_cfd addr s =
    let slot = suc conn_index in
    let fds =
      set s.pollfds slot
        (record (get_or s.pollfds slot no_pollfd) { fd = pos new_cfd; events = only_pollin }) in
    let count = increment s.num_connections in
    record {
      so = record {
        listen_fd = s.listen_fd;
        client_fd = set s.client_fd conn_index (pos new_cfd);
        client_addr = set s.client_addr conn_index addr;
        num_connections = count;
      };
      pollfds = if leb max_connections count then set_listen no_events fds else fds;
      gogo_poll = s.gogo_poll;
    }

-- What `poll_remove_connection` changes.
unfoldable pub forget_connection : ℕ → Server → Server
forget_connection conn_index s =
    let fds = set s.pollfds (suc conn_index) no_pollfd in
    let count = decrement s.num_connections in
    let listen_pollfd = get_or fds 0 no_pollfd in
    record {
      so = record {
        listen_fd = s.listen_fd;
        client_fd = set s.client_fd conn_index (pos 0);
        client_addr = set s.client_addr conn_index no_address;
        num_connections = count;
      };
      pollfds =
          if not (is_pollin listen_pollfd.events) && ltb count max_connections
          then set_listen only_pollin fds
          else fds;
      gogo_poll = s.gogo_poll;
    }

-- `pollfd->revents = 0`
unfoldable pub reset_revents : ℕ → Server → Server
reset_revents i s = record s {
  pollfds = set s.pollfds i (record (get_or s.pollfds i no_pollfd) { revents = no_events });
}

-- calloc'ed
abbrev pub zero_state : StateObject
zero_state = record {
  listen_fd = pos 0;
  client_fd = replicate max_connections (pos 0);
  client_addr = replicate max_connections no_address;
  num_connections = 0;
}

-- The state in which `run_poll_server` enters its loop.
unfoldable pub listening : StateObject → Server
listening so = record {
  so = so;
  pollfds =
      record { fd = so.listen_fd; events = only_pollin; revents = no_events }
      ∷ replicate max_connections no_pollfd;
  gogo_poll = Bool.true;
}
