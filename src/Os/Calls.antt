-- ===== src/Os/Calls.antt =====
-- The calls that leave the program, what each may answer, and the platform that answers them.
use Prim.Native.String.{String}
use scalable_server.Prelude.{
  suc, if◌then◌else◌, [], ◌∷◌, ℕ, ℤ, Bool, true, false, ◌&&◌, ◌||◌, not, List, Option,
}

-- `errno` after a failed call; `no_error` is 0.
pub data Errno : Type 0 where
  no_error : Errno
  eintr : Errno
  ebadf : Errno
  other_error : ℕ → Errno

-- A call that answers -1 and sets `errno` on failure.
pub data Ret {ℓ} (A : Type ℓ) : Type ℓ where
  ok : A → Ret A
  fail : Errno → Ret A

-- `struct sockaddr_in`; the fields are in network byte order.
pub record SockaddrIn : Type 0 where
  pub sin_port : ℕ
  pub sin_addr : ℕ

abbrev pub no_address : SockaddrIn
no_address = record { sin_port = 0; sin_addr = 0 }

-- The bits of `events` and `revents` that the sources test, and whether any further bit is set.
pub record Events : Type 0 where
  pub pollin : Bool
  pub pollhup : Bool
  pub pollerr : Bool
  pub further : Bool

abbrev pub no_events : Events
no_events = record { pollin = false; pollhup = false; pollerr = false; further = false }

-- the value POLLIN
abbrev pub only_pollin : Events
only_pollin = record { pollin = true; pollhup = false; pollerr = false; further = false }

-- e == POLLIN
unfoldable pub is_pollin : Events → Bool
is_pollin e = e.pollin && not (e.pollhup || (e.pollerr || e.further))

-- (e & POLLHUP) || (e & POLLERR)
unfoldable pub is_hung_up : Events → Bool
is_hung_up e = e.pollhup || e.pollerr

-- Any bit at all, which is what `revents && POLLIN` tests.
abbrev pub is_set : Events → Bool
is_set e = e.pollin || (e.pollhup || (e.pollerr || e.further))

-- What poll() returns.
abbrev pub count_set : List Events → ℕ
count_set [] = 0
count_set (e ∷ es) = if is_set e then suc (count_set es) else count_set es

pub record Pollfd : Type 0 where
  pub fd : ℤ
  pub events : Events
  pub revents : Events

-- a pollfd of zero bytes
abbrev pub no_pollfd : Pollfd
no_pollfd = record { fd = ℤ.pos 0; events = no_events; revents = no_events }

-- What a conversion of the log line prints.
pub data Field : Type 0 where
  text : String → Field
  number : ℕ → Field
  descriptor : ℤ → Field
  ip : ℕ → Field  -- inet_ntoa
  date : ℕ → Field  -- ctime, less the newline
  cut_date : ℕ → Field  -- ctime, less its last two characters
  seconds : ℕ → ℕ → Field  -- (end - start) / CLOCKS_PER_SEC

pub data Signal : Type 0 where
  sigint sigterm : Signal

-- The named semaphores of the process server.
pub data Sem : Type 0 where
  pipe_write domain_read domain_write log_file : Sem

pub data Call : Type 0 where
  socket : Call
  bind : ℤ → SockaddrIn → Call
  listen : ℤ → ℕ → Call
  accept : ℤ → Call
  close : ℤ → Call
  poll : List Pollfd → Call
  select : List ℤ → Call
  recv : ℤ → ℕ → Call
  recv_all : ℤ → ℕ → Call  -- with MSG_WAITALL
  send : ℤ → List ℕ → Call
  read : ℤ → ℕ → Call
  write : ℤ → List ℕ → Call
  pipe : Call
  socketpair : Call
  sigaction : Signal → Call
  pending_signal : Call  -- whether a handled signal came since the last look
  malloc : ℕ → Call
  calloc : ℕ → Call
  free : ℕ → Call
  time : Call
  clock : Call
  log_line : List Field → Call
  fflush : Call
  init_mem_manager : Call
  free_mem_manager : Call
  fopen : String → Call
  fclose : Call
  inet_pton : String → Call
  dlopen : String → Call
  dlsym : String → Call
  dlclose : Call
  sem_open : Sem → ℕ → Call  -- with the initial value
  sem_wait : Sem → Call
  sem_post : Sem → Call
  sem_close : Sem → Call
  sem_unlink : Sem → Call
  fork : Call
  kill : ℕ → Signal → Call
  waitpid : ℕ → Call
  getpid : Call
  cmsg_firsthdr : Call  -- of a message to send
  sendmsg : ℤ → ℤ → ℤ → Call  -- the socket, the number sent, the descriptor passed
  recvmsg : ℤ → Call
  getpeername : ℤ → Call
  read_int : ℤ → Call
  write_int : ℤ → ℤ → Call
  connect : ℤ → SockaddrIn → Call
  setsockopt : ℤ → Call
  inet_addr : List ℕ → Call
  strtol : List ℕ → Call
  stat : List ℕ → Call
  open_path : List ℕ → Call  -- fopen() of a name that is given at run time
  fread : ℕ → Call
  fwrite : String → Call
  feof : Call
  ferror : Call
  sleep : ℕ → Call
  sysconf : Call  -- of _SC_NPROCESSORS_ONLN
  pthread_create : ℕ → SockaddrIn → List ℕ → ℕ → Call  -- with the thread_id, server_addr, data, data_size
  pthread_cancel : ℕ → Call
  pthread_join : ℕ → Call
  pthread_testcancel : Call
  mutex_init : Call
  mutex_destroy : Call
  mutex_lock : Call
  mutex_unlock : Call

-- Descriptors are non-negative; a received message is the list of its bytes; `none` is NULL.
abbrev pub Answer : Call → Type 0
Answer socket = Ret ℕ
Answer (bind _ _) = Ret (Unit {0})
Answer (listen _ _) = Ret (Unit {0})
Answer (accept _) = Ret (ℕ × SockaddrIn)
Answer (close _) = Ret (Unit {0})
Answer (poll _) = Ret (List Events)
Answer (select _) = Ret (List ℤ)
Answer (recv _ _) = Ret (List ℕ)
Answer (recv_all _ _) = Ret (List ℕ)
Answer (send _ _) = Ret ℕ
Answer (read _ _) = Ret (List ℕ)
Answer (write _ _) = Ret ℕ
Answer pipe = Ret (ℕ × ℕ)
Answer socketpair = Ret (ℕ × ℕ)
Answer (sigaction _) = Ret (Unit {0})
Answer pending_signal = Bool
Answer (malloc _) = Option ℕ
Answer (calloc _) = Option ℕ
Answer (free _) = Unit {0}
Answer time = ℕ
Answer clock = ℕ
Answer (log_line _) = Unit {0}
Answer fflush = Unit {0}
Answer init_mem_manager = Option ℕ
Answer free_mem_manager = Unit {0}
Answer (fopen _) = Option ℕ
Answer fclose = Ret (Unit {0})
Answer (inet_pton _) = Ret (Option ℕ)  -- `none` is 0, not an address
Answer (dlopen _) = Option ℕ
Answer (dlsym _) = Option ℕ
Answer dlclose = Ret (Unit {0})
Answer (sem_open _ _) = Ret (Unit {0})
Answer (sem_wait _) = Ret (Unit {0})
Answer (sem_post _) = Ret (Unit {0})
Answer (sem_close _) = Ret (Unit {0})
Answer (sem_unlink _) = Ret (Unit {0})
Answer fork = Ret ℕ
Answer (kill _ _) = Ret (Unit {0})
Answer (waitpid _) = Ret ℕ
Answer getpid = ℕ
Answer cmsg_firsthdr = Bool  -- whether it is not NULL
Answer (sendmsg _ _ _) = Ret ℕ
Answer (recvmsg _) = Ret (Option ℤ × Option ℕ)  -- the number and the descriptor, as far as they came
Answer (getpeername _) = Ret SockaddrIn
Answer (read_int _) = Ret (Option ℤ)  -- `none` if no whole number came
Answer (write_int _ _) = Ret ℕ
Answer (connect _ _) = Ret (Unit {0})
Answer (setsockopt _) = Ret (Unit {0})
Answer (inet_addr _) = Option ℕ  -- `none` is -1
Answer (strtol _) = ℤ × ℕ × Bool  -- the value, the characters taken, and whether it was out of range
Answer (stat _) = Ret ℕ  -- the size of the file
Answer (open_path _) = Option ℕ
Answer (fread _) = List ℕ
Answer (fwrite _) = Unit {0}
Answer feof = Bool
Answer ferror = Bool
Answer (sleep _) = Unit {0}
Answer sysconf = Ret ℕ
Answer (pthread_create _ _ _ _) = Option ℕ  -- the thread's id
Answer (pthread_cancel _) = Bool  -- whether it returned 0, as for all that follow
Answer (pthread_join _) = Bool
Answer pthread_testcancel = Bool  -- whether the thread goes on
Answer mutex_init = Bool
Answer mutex_destroy = Bool
Answer mutex_lock = Bool
Answer mutex_unlock = Bool

-- One call and its answer. A trace lists them, the newest first.
pub data Event : Type 0 where
  did : (c : Call) → Answer c → Event

-- The answer to a call may depend on all that happened. `scratch` is what an uninitialised variable
-- holds; `word32` reads four bytes of memory as a number and `bytes32` stores one; `word16` and `bytes16`
-- do so with two bytes; `int32` reads four bytes as an int, and `events` two bytes as `revents`.
pub record Platform : Type 0 where
  pub answer : List Event → (c : Call) → Answer c
  pub scratch : List Event → List ℕ
  pub htonl : ℕ → ℕ
  pub ntohl : ℕ → ℕ
  pub htons : ℕ → ℕ
  pub ntohs : ℕ → ℕ
  pub word32 : List ℕ → ℕ
  pub bytes32 : ℕ → List ℕ
  pub word16 : List ℕ → ℕ
  pub bytes16 : ℕ → List ℕ
  pub events : List ℕ → Events
  pub int32 : List ℕ → ℤ
