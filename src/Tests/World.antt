-- ===== src/Tests/World.antt =====
-- A platform on which every call succeeds: clients connect while they are let in and send all the time,
-- at most `part` bytes in a call; a call of `send` takes two bytes.
use scalable_server.OneToOne.Exchange.{Bounded}
use Prim.Native.Nat.{min, suc, ℕ}
use scalable_server.Prelude.{
  ◌<◌, some, pos, ◌%◌, zero, true, ◌/◌, ◌+◌, false, min, refl, ap, ◌*◌, arith, [], is_zero, suc,
  if◌then◌else◌, sym, ◌∷◌, map, replicate, ℤ, ◌≡◌, get_or, length, ℕ, List,
}
use scalable_server.Os.{
  mutex_unlock, mutex_lock, mutex_destroy, mutex_init, pthread_testcancel, sysconf, ferror, feof,
  pthread_join, pthread_cancel, pthread_create, sleep, fwrite, fread, open_path, stat, strtol,
  inet_addr, setsockopt, connect, Ret, no_address, SockaddrIn, socket, pipe, socketpair,
  pending_signal, time, clock, fflush, init_mem_manager, free_mem_manager, fclose, dlclose,
  sem_open, sem_wait, sem_post, sem_close, sem_unlink, fork, kill, waitpid, getpid, cmsg_firsthdr,
  sendmsg, recvmsg, getpeername, read_int, write_int, dlsym, dlopen, inet_pton, fopen, log_line,
  free, calloc, malloc, sigaction, write, read, send, recv_all, recv, select, poll, close, accept,
  no_pollfd, listen, bind, no_events, Answer, Call, Platform, Events, Lawful, StdinOpen, Event, ok,
  is_hung_up, is_pollin, Pollfd,
}

-- Input is reported where it was asked for, and nothing else.
abbrev pub react : Pollfd → Events
react p = if is_zero p.fd then no_events else record no_events { pollin = p.events.pollin }

abbrev pub first_only : List ℤ → List ℤ
first_only [] = []
first_only (fd ∷ fds) = fd ∷ []

abbrev pub world_answer : ℕ → List Event → (c : Call) → Answer c
world_answer part h socket = ok 3
world_answer part h (bind _ _) = ok tt
world_answer part h (listen _ _) = ok tt
world_answer part h (accept _) = ok (7, record { sin_port = 8080; sin_addr = 1 })
world_answer part h (close _) = ok tt
world_answer part h (poll ps) = ok (map react ps)
world_answer part h (select fds) = ok (first_only fds)
world_answer part h (recv _ n) = ok (replicate (min n part) 65)
world_answer part h (recv_all _ _) = ok (0 ∷ 0 ∷ 0 ∷ 5 ∷ [])
world_answer part h (send _ message) = ok (min 2 (length message))
world_answer part h (read _ _) = ok []
world_answer part h (write _ message) = ok (length message)
world_answer part h pipe = ok (4, 5)
world_answer part h socketpair = ok (6, 7)
world_answer part h (sigaction _) = ok tt
world_answer part h pending_signal = false
world_answer part h (malloc _) = some 4096
world_answer part h (calloc _) = some 4096
world_answer part h (free _) = tt
world_answer part h time = 1000
world_answer part h clock = 5
world_answer part h (log_line _) = tt
world_answer part h fflush = tt
world_answer part h init_mem_manager = some 4096
world_answer part h free_mem_manager = tt
world_answer part h (fopen _) = some 4096
world_answer part h fclose = ok tt
world_answer part h (inet_pton _) = ok (some 1)
world_answer part h (dlopen _) = some 4096
world_answer part h (dlsym _) = some 4096
world_answer part h dlclose = ok tt
world_answer part h (sem_open _ _) = ok tt
world_answer part h (sem_wait _) = ok tt
world_answer part h (sem_post _) = ok tt
world_answer part h (sem_close _) = ok tt
world_answer part h (sem_unlink _) = ok tt
world_answer part h fork = ok 100
world_answer part h (kill _ _) = ok tt
world_answer part h (waitpid _) = ok 100
world_answer part h getpid = 99
world_answer part h cmsg_firsthdr = true
world_answer part h (sendmsg _ _ _) = ok 4
world_answer part h (recvmsg _) = ok (some (pos 7), some 8)
world_answer part h (getpeername _) = ok no_address
world_answer part h (read_int _) = ok (some (pos 7))
world_answer part h (write_int _ _) = ok 4
world_answer part h (connect _ _) = ok tt
world_answer part h (setsockopt _) = ok tt
world_answer part h (inet_addr _) = some 1
world_answer part h (strtol s) = (pos 5000, length s, false)
world_answer part h (stat _) = ok 3
world_answer part h (open_path _) = some 4096
world_answer part h (fread n) = replicate (min n 3) 66
world_answer part h (fwrite _) = tt
world_answer part h feof = false
world_answer part h ferror = false
world_answer part h (sleep _) = tt
world_answer part h sysconf = ok 2
world_answer part h (pthread_create i _ _ _) = some i
world_answer part h (pthread_cancel _) = true
world_answer part h (pthread_join _) = true
world_answer part h pthread_testcancel = true
world_answer part h mutex_init = true
world_answer part h mutex_destroy = true
world_answer part h mutex_lock = true
world_answer part h mutex_unlock = true

-- The number that four bytes hold, the most significant one first.
abbrev pub big_endian : List ℕ → ℕ
big_endian (a ∷ b ∷ c ∷ d ∷ _) = ((a * 256 + b) * 256 + c) * 256 + d
big_endian _ = 0

abbrev pub big_endian16 : List ℕ → ℕ
big_endian16 (a ∷ b ∷ _) = a * 256 + b
big_endian16 _ = 0

abbrev pub world : ℕ → Platform
world part = record {
  answer = world_answer part;
  scratch = λ _. 0 ∷ 0 ∷ 0 ∷ 0 ∷ [];
  htonl = λ n. n;
  ntohl = λ n. n;
  htons = λ n. n;
  ntohs = λ n. n;
  word32 = big_endian;
  bytes32 = λ n. n / 16777216 % 256 ∷ n / 65536 % 256 ∷ n / 256 % 256 ∷ n % 256 ∷ [];
  word16 = big_endian16;
  bytes16 = λ n. n / 256 % 256 ∷ n % 256 ∷ [];
  events = λ bytes. no_events;
  int32 = λ bytes. pos (big_endian bytes);
}

length-react : (ps : List Pollfd) → length (map react ps) ≡ length ps
length-react [] = refl
length-react (p ∷ ps) = ap suc (length-react ps)

react-requested :
    (ps : List Pollfd)
    → is_pollin (get_or (map react ps) 0 no_events) ≡ true
    → (get_or ps 0 no_pollfd).events.pollin ≡ true
unfolding is_pollin
react-requested [] h = h
react-requested (p ∷ ps) h = ground arith

react-calm : (ps : List Pollfd) (i : ℕ) → is_hung_up (get_or (map react ps) i no_events) ≡ false
unfolding is_hung_up
react-calm [] i = refl
react-calm (p ∷ ps) zero = ground arith
react-calm (p ∷ ps) (suc i) = react-calm ps i

pub ok-injective : {A : Type 0} (x y : A) → ok x ≡ ok y → x ≡ y
ok-injective x y e = cc e

accepted :
    (n : ℕ) (addr : SockaddrIn)
    → ◌≡◌ {A = Ret (ℕ × SockaddrIn)}
        (ok (7, record { sin_port = 8080; sin_addr = 1 }))
        (ok (n, addr))
    → 0 < n
accepted n addr e =
    let same : 7 ≡ n = ap (λ (x : ℕ × SockaddrIn). x.0) (ok-injective _ _ e) in omega (arith, same)

pub world-Lawful : (part : ℕ) → Lawful (world part)
world-Lawful part = record {
  accept_positive = λ h fd n addr e. accepted n addr e;
  poll_reports_all = λ h ps rs e. rw (sym (ok-injective _ _ e)) (length-react ps);
  poll_requested = λ h ps rs e. rw (sym (ok-injective _ _ e)) (react-requested ps);
}

pub world-StdinOpen : (part : ℕ) → StdinOpen (world part)
world-StdinOpen part = record {
  free_slot_calm = λ h ps rs e i free. rw (sym (ok-injective _ _ e)) (react-calm ps i);
}

length-replicate : (n : ℕ) → length {A = ℕ} (replicate n 65) ≡ n
length-replicate zero = refl
length-replicate (suc n) = ap suc (length-replicate n)

pub world-Bounded : (part : ℕ) → Bounded (world part)
world-Bounded part = record {
  recv_bounded = λ h fd n message e.
      rw (sym (ok-injective _ _ e)) (omega (arith, length-replicate (min n part)));
  send_bounded = λ h fd message n e. omega (arith, ok-injective _ _ e);
}
