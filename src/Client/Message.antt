-- ===== src/Client/Message.antt =====
-- The START message, as the client reads it (client/src/run.c).
use scalable_server.Client.Run.{
  keep_port, read_sized_ip, read_sized_contents, end_contents, read_port, fill_contents,
  read_contents, read_data, allocate_contents, end_ip, fill_ip, allocate_ip, read_ip,
}
use scalable_server.Client.Receiving.{Got, consumed-malloc, read_fully-Got, consumed, Delivers}
use Prim.Native.Nat.{ℕ}
use scalable_server.Prelude.{
  refl, append-nil, join, ◌≤◌, false, ◌==◌, arith, ◌%◌, [], ◌∷◌, ◌^◌, ◌<◌, ◌+◌, ◌++◌, ◌≡◌, length,
  some, List, ℕ,
}
use scalable_server.Os.{◌>>=◌, did, resume, ret, Machine, Res, Errno, malloc, Event, Platform}
use scalable_server.Client.State.{Client}

-- malloc() has memory to give.
abbrev pub Allocates : Platform → Type 0
Allocates os = (h : List Event) (n : ℕ) → (p : ℕ) × (os.answer h (malloc n) ≡ some p)

abbrev pub with_ip : Client → ℕ → List ℕ → Client
with_ip c pointer bytes = record c {
  so = record c.so { server_ip = some (record { pointer = pointer; bytes = bytes }) };
}

abbrev pub with_contents : Client → ℕ → List ℕ → ℕ → Client
with_contents c pointer bytes size = record c {
  so = record c.so {
    contents = some (record { pointer = pointer; bytes = bytes });
    data_size = size;
  };
}

abbrev pub with_port : Client → ℕ → Client
with_port c port = record c { so = record c.so { server_port = port } }

module _ (os : Platform) (memory : Allocates os) where
  allocate_ip-some :
      (P : Res ℕ × Machine Client → Type 0) (size : ℕ) (t : List Event) (e : Errno) (c : Client)
      → ((p : ℕ) (junk : List ℕ)
          → P (
            ret p,
            record {
              trace = did (malloc ((size + 1) % 2 ^ 32)) (some p) ∷ t;
              errno = e;
              st = with_ip c p junk;
            },
          ))
      → P (allocate_ip os size (record { trace = t; errno = e; st = c }))
  unfolding allocate_ip
  allocate_ip-some P size t e c next =
      let (p, allocated) = memory t ((size + 1) % 2 ^ 32) in
      rw allocated (
        next p (
          os.scratch
            (did (malloc ((size + 1) % 2 ^ 32)) (os.answer t (malloc ((size + 1) % 2 ^ 32))) ∷ t)))

  read_ip-Got :
      (P : Res (Unit {0}) × Machine Client → Type 0) (s rest : List ℕ) (size : ℕ)
      (ip others : List ℕ) (t : List Event) (e : Errno) (c : Client)
      → Delivers os c.so.controller_fd s
      → (consumed c.so.controller_fd t ++ (ip ++ others)) ++ rest ≡ s
      → length ip ≡ size
      → size + 1 < 2 ^ 32
      → ((p : ℕ) (t' : List Event) (e' : Errno)
          → (consumed c.so.controller_fd t' ++ others) ++ rest ≡ s
          → P (ret tt, record { trace = t'; errno = e'; st = with_ip c p (ip ++ 0 ∷ []) }))
      → P (read_ip os size (record { trace = t; errno = e; st = c }))
  unfolding read_ip fill_ip end_ip
  read_ip-Got P s rest size ip others t e c law left len small next =
      allocate_ip-some (λ r. P (resume r (fill_ip os size))) size t e c
        λ p junk.
          read_fully-Got os c.so.controller_fd s rest law (λ r. P (resume r (end_ip os size p)))
            ((size + 1) % 2 ^ 32) size ip others (did (malloc ((size + 1) % 2 ^ 32)) (some p) ∷ t) e
            (with_ip c p junk)
            (rw (consumed-malloc c.so.controller_fd ((size + 1) % 2 ^ 32) (some p) t) left) len
            (omega arith) λ t' e' left'. rw roomy (next p t' e' left')
    where
      roomy : (size + 1) % 2 ^ 32 == 0 ≡ false
      roomy = ground arith

  allocate_contents-some :
      (P : Res ℕ × Machine Client → Type 0) (room : ℕ) (t : List Event) (e : Errno) (c : Client)
      → ((p : ℕ) (junk : List ℕ)
          → P (
            ret p,
            record {
              trace = did (malloc room) (some p) ∷ t;
              errno = e;
              st = with_contents c p junk (os.ntohl room % 2 ^ 32);
            },
          ))
      → P (allocate_contents os room (record { trace = t; errno = e; st = c }))
  unfolding allocate_contents
  allocate_contents-some P room t e c next =
      let (p, allocated) = memory t room in
      rw allocated (next p (os.scratch (did (malloc room) (os.answer t (malloc room)) ∷ t)))

  read_contents-Got :
      (P : Res (Unit {0}) × Machine Client → Type 0) (s rest : List ℕ) (room : ℕ)
      (bytes others : List ℕ) (t : List Event) (e : Errno) (c : Client)
      → Delivers os c.so.controller_fd s
      → (consumed c.so.controller_fd t ++ (bytes ++ others)) ++ rest ≡ s
      → length bytes ≡ os.ntohl room % 2 ^ 32
      → length bytes ≤ room
      → ((p : ℕ) (t' : List Event) (e' : Errno)
          → (consumed c.so.controller_fd t' ++ others) ++ rest ≡ s
          → P (
            ret tt,
            record {
              trace = t';
              errno = e';
              st = with_contents c p bytes (os.ntohl room % 2 ^ 32);
            },
          ))
      → P (read_contents os room (record { trace = t; errno = e; st = c }))
  unfolding read_contents fill_contents end_contents
  read_contents-Got P s rest room bytes others t e c law left len fits next =
      allocate_contents-some (λ r. P (resume r (fill_contents os room))) room t e c
        λ p junk.
          read_fully-Got os c.so.controller_fd s rest law (λ r. P (resume r (end_contents os p)))
            room (os.ntohl room % 2 ^ 32) bytes others (did (malloc room) (some p) ∷ t) e
            (with_contents c p junk (os.ntohl room % 2 ^ 32))
            (rw (consumed-malloc c.so.controller_fd room (some p) t) left) len (omega arith)
            λ t' e' left'. next p t' e' left'

  read_port-Got :
      (P : Res (Unit {0}) × Machine Client → Type 0) (s rest : List ℕ) (port others : List ℕ)
      (t : List Event) (e : Errno) (c : Client)
      → Delivers os c.so.controller_fd s
      → (consumed c.so.controller_fd t ++ (port ++ others)) ++ rest ≡ s
      → length port ≡ 2
      → ((t' : List Event) (e' : Errno)
          → (consumed c.so.controller_fd t' ++ others) ++ rest ≡ s
          → P (
            ret tt,
            record {
              trace = t';
              errno = e';
              st = with_port c (os.ntohs (os.word16 port) % 2 ^ 16);
            },
          ))
      → P (read_port os (record { trace = t; errno = e; st = c }))
  unfolding read_port keep_port
  read_port-Got P s rest port others t e c law left len next =
      read_fully-Got os c.so.controller_fd s rest law (λ r. P (resume r (keep_port os))) 2 2 port
        others t e c left len (omega arith) next

  read_sized_ip-Got :
      (P : Res (Unit {0}) × Machine Client → Type 0) (s rest : List ℕ) (size ip others : List ℕ)
      (t : List Event) (e : Errno) (c : Client)
      → Delivers os c.so.controller_fd s
      → (consumed c.so.controller_fd t ++ (size ++ (ip ++ others))) ++ rest ≡ s
      → length size ≡ 4
      → length ip ≡ os.ntohl (os.word32 size) % 2 ^ 32
      → length ip + 1 < 2 ^ 32
      → ((p : ℕ) (t' : List Event) (e' : Errno)
          → (consumed c.so.controller_fd t' ++ others) ++ rest ≡ s
          → P (ret tt, record { trace = t'; errno = e'; st = with_ip c p (ip ++ 0 ∷ []) }))
      → P (read_sized_ip os (record { trace = t; errno = e; st = c }))
  unfolding read_sized_ip
  read_sized_ip-Got P s rest size ip others t e c law left size_len len small next =
      read_fully-Got os c.so.controller_fd s rest law
        (λ r. P (resume r (λ size'. read_ip os (os.ntohl (os.word32 size') % 2 ^ 32)))) 4 4 size
        (ip ++ others) t e c left size_len (omega arith)
        λ t' e' left'.
          read_ip-Got P s rest (os.ntohl (os.word32 size) % 2 ^ 32) ip others t' e' c law left' len
            (omega arith) next

  read_sized_contents-Got :
      (P : Res (Unit {0}) × Machine Client → Type 0) (s rest : List ℕ) (size bytes others : List ℕ)
      (t : List Event) (e : Errno) (c : Client)
      → Delivers os c.so.controller_fd s
      → (consumed c.so.controller_fd t ++ (size ++ (bytes ++ others))) ++ rest ≡ s
      → length size ≡ 4
      → length bytes ≡ os.ntohl (os.word32 size) % 2 ^ 32
      → length bytes ≤ os.word32 size
      → ((p : ℕ) (t' : List Event) (e' : Errno)
          → (consumed c.so.controller_fd t' ++ others) ++ rest ≡ s
          → P (
            ret tt,
            record {
              trace = t';
              errno = e';
              st = with_contents c p bytes (os.ntohl (os.word32 size) % 2 ^ 32);
            },
          ))
      → P (read_sized_contents os (record { trace = t; errno = e; st = c }))
  unfolding read_sized_contents
  read_sized_contents-Got P s rest size bytes others t e c law left size_len len fits next =
      read_fully-Got os c.so.controller_fd s rest law
        (λ r. P (resume r (λ size'. read_contents os (os.word32 size')))) 4 4 size (bytes ++ others)
        t e c left size_len (omega arith)
        λ t' e' left'.
          read_contents-Got P s rest (os.word32 size) bytes others t' e' c law left' len fits next

-- A START message in five parts, each as long as the ones before it say.
pub record IsMessage (os : Platform) (port ip_size ip data_size bytes : List ℕ) : Type 0 where
  pub port_length : length port ≡ 2
  pub ip_size_length : length ip_size ≡ 4
  pub ip_length : length ip ≡ os.ntohl (os.word32 ip_size) % 2 ^ 32
  pub ip_small : length ip + 1 < 2 ^ 32
  pub data_size_length : length data_size ≡ 4
  pub bytes_length : length bytes ≡ os.ntohl (os.word32 data_size) % 2 ^ 32

-- What the client keeps of a message.
abbrev pub loaded : Client → ℕ → ℕ → List ℕ → ℕ → List ℕ → Client
loaded c port p ip q bytes =
    with_contents (with_ip (with_port c port) p (ip ++ 0 ∷ [])) q bytes (length bytes)

pub read_data-Got :
    (os : Platform) (s rest port ip_size ip data_size bytes : List ℕ) (t : List Event) (e : Errno)
    (c : Client)
    → Allocates os
    → Delivers os c.so.controller_fd s
    → IsMessage os port ip_size ip data_size bytes
    → length bytes ≤ os.word32 data_size
    → (consumed c.so.controller_fd t ++ join (port ∷ ip_size ∷ ip ∷ data_size ∷ bytes ∷ [])) ++ rest
      ≡ s
    → (p : ℕ) × (q : ℕ) × Got c.so.controller_fd s rest tt
        (loaded c (os.ntohs (os.word16 port) % 2 ^ 16) p ip q bytes)
        (read_data os (record { trace = t; errno = e; st = c }))
unfolding read_data
read_data-Got os s rest port ip_size ip data_size bytes t e c memory law message fits left =
    let fd = c.so.controller_fd in
    let net_port = os.ntohs (os.word16 port) % 2 ^ 16 in
    let Done : Res (Unit {0}) × Machine Client → Type 0 =
      λ r. (p : ℕ) × (q : ℕ) × Got fd s rest tt (loaded c net_port p ip q bytes) r in
    read_port-Got os memory
      (λ r. Done (resume r (λ _. read_sized_ip os >>= λ _. read_sized_contents os))) s rest port
      (join (ip_size ∷ ip ∷ data_size ∷ bytes ∷ [])) t e c law left message.port_length
      λ t1 e1 left1.
        read_sized_ip-Got os memory (λ r. Done (resume r (λ _. read_sized_contents os))) s rest
          ip_size ip (join (data_size ∷ bytes ∷ [])) t1 e1 (with_port c net_port) law left1
          message.ip_size_length message.ip_length message.ip_small
          λ p t2 e2 left2.
            read_sized_contents-Got os memory Done s rest data_size bytes [] t2 e2
              (with_ip (with_port c net_port) p (ip ++ 0 ∷ [])) law left2 message.data_size_length
              message.bytes_length fits
              λ q t3 e3 left3. (
                p,
                q,
                ((t3, e3), rw message.bytes_length refl, rw (append-nil (consumed fd t3)) at left3),
              )
