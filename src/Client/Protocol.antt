-- ===== src/Client/Protocol.antt =====
-- The START message from controller to client: send_data (client-controller/src/connection.c) and
-- read_data (client/src/run.c) on two platforms.
use scalable_server.Prelude.{
  refl, take-whole, ◌∙◌, append-nil, take, length-append, arith, ◌%◌, join, ◌∷◌, ◌++◌, [], true,
  ◌≤◌, ◌+◌, some, length, ◌^◌, ◌≡◌, ℤ, List, ◌<◌, ℕ,
}
use Prim.Native.Nat.{ℕ}
use scalable_server.Os.{ret, Errno, Event, Machine, Platform}
use scalable_server.Controller.Writing.{WritesSome, written}
use scalable_server.Controller.Sending.{count, copies, copies-once, send_data-Sent}
use scalable_server.Controller.Connection.{send_data, data_parts}
use scalable_server.Controller.State.{Controller, StateObject, connected}
use scalable_server.Client.Message.{Allocates, IsMessage, loaded, read_data-Got}
use scalable_server.Client.Receiving.{Delivers, consumed, Got}
use scalable_server.Client.Run.{read_data}
use scalable_server.Client.State.{Client}

-- A number in network byte order means the same on both platforms.
pub record Interop (a b : Platform) : Type 0 where
  pub port_back : (n : ℕ) → n < 2 ^ 16 → b.ntohs (b.word16 (a.bytes16 (a.htons n))) ≡ n
  pub number_back : (n : ℕ) → n < 2 ^ 32 → b.ntohl (b.word32 (a.bytes32 (a.htonl n))) ≡ n
  pub bytes16_length : (n : ℕ) → length (a.bytes16 n) ≡ 2
  pub bytes32_length : (n : ℕ) → length (a.bytes32 n) ≡ 4

-- What the controller sends is as long as the protocol can say.
pub record CanSend (a b : Platform) (s : StateObject) (contents : List ℕ) : Type 0 where
  pub is_loaded : s.contents ≡ some contents
  pub is_whole : length contents ≡ s.data_size
  pub port_bound : s.server_port < 2 ^ 16
  pub ip_bound : length s.server_ip + 2 < 2 ^ 32
  pub data_bound : s.data_size < 2 ^ 32

-- The parts of a message, without the conversions.
data_parts_of :
    (a b : Platform) (s : StateObject) (contents : List ℕ)
    → CanSend a b s contents
    → data_parts a s contents
      ≡ a.bytes16 (a.htons s.server_port)
        ∷ a.bytes32 (a.htonl (length s.server_ip + 1))
        ∷ (s.server_ip ++ 0 ∷ [])
        ∷ a.bytes32 (a.htonl s.data_size)
        ∷ contents
        ∷ []
unfolding data_parts
data_parts_of a b s contents can = rw (ip_size, data_size, whole_ip, whole) refl
  where
    ip_size : (length s.server_ip + 1) % 2 ^ 32 ≡ length s.server_ip + 1
    ip_size = omega (arith, can.ip_bound)

    data_size : s.data_size % 2 ^ 32 ≡ s.data_size
    data_size = omega (arith, can.data_bound)

    whole_ip : take (length s.server_ip + 1) (s.server_ip ++ 0 ∷ []) ≡ s.server_ip ++ 0 ∷ []
    whole_ip =
        take-whole (length s.server_ip + 1) (s.server_ip ++ 0 ∷ [])
          (omega (arith, length-append s.server_ip (0 ∷ [])))

    whole : take s.data_size contents ≡ contents
    whole = take-whole s.data_size contents (omega (arith, can.is_whole))

data_parts-IsMessage :
    (a b : Platform) (s : StateObject) (contents : List ℕ)
    → Interop a b
    → CanSend a b s contents
    → IsMessage b
        (a.bytes16 (a.htons s.server_port))
        (a.bytes32 (a.htonl (length s.server_ip + 1)))
        (s.server_ip ++ 0 ∷ [])
        (a.bytes32 (a.htonl s.data_size))
        contents
data_parts-IsMessage a b s contents interop can = record {
  port_length = interop.bytes16_length (a.htons s.server_port);
  ip_size_length = interop.bytes32_length (a.htonl (length s.server_ip + 1));
  ip_length =
      rw (interop.number_back (length s.server_ip + 1) (omega (arith, can.ip_bound)))
        (omega (arith, can.ip_bound, length-append s.server_ip (0 ∷ [])));
  ip_small = omega (arith, can.ip_bound, length-append s.server_ip (0 ∷ []));
  data_size_length = interop.bytes32_length (a.htonl s.data_size);
  bytes_length =
      rw (interop.number_back s.data_size can.data_bound)
        (omega (arith, can.is_whole, can.data_bound));
}

-- On two platforms that agree on network byte order, where write() takes a byte at least, malloc()
-- gives memory, the loaded data is within the bounds of `CanSend`, and it is no longer than its size in network
-- byte order, read as a number of the client's machine, which is what the client gives to malloc(): if `send_data` succeeds, its
-- client is connected once, has read what was sent to it before, and its stream delivers what was
-- written to it, then `read_data` takes the whole message and succeeds, and the client has the
-- controller's server port, server address and data; nothing else of its state changes.
pub send_data-read_data :
    (a b : Platform) (w v : Machine Controller) (contents : List ℕ) (to : ℤ) (t : List Event)
    (e : Errno) (c : Client)
    → WritesSome a
    → Interop a b
    → Allocates b
    → CanSend a b w.st.so contents
    → w.st.so.data_size ≤ b.word32 (a.bytes32 (a.htonl w.st.so.data_size))
    → count to (connected w.st.so) ≡ 1
    → send_data a w ≡ (ret true, v)
    → Delivers b c.so.controller_fd (written to v.trace)
    → consumed c.so.controller_fd t ≡ written to w.trace
    → (p : ℕ) × (q : ℕ) × Got c.so.controller_fd
        (written to v.trace)
        []
        tt
        (loaded c w.st.so.server_port p (w.st.so.server_ip ++ 0 ∷ []) q contents)
        (read_data b (record { trace = t; errno = e; st = c }))
send_data-read_data a b w v contents to t e c writes interop memory can fits once sent law
      read_before =
    let s = w.st.so in
    let parts =
      a.bytes16 (a.htons s.server_port)
      ∷ a.bytes32 (a.htonl (length s.server_ip + 1))
      ∷ (s.server_ip ++ 0 ∷ [])
      ∷ a.bytes32 (a.htonl s.data_size)
      ∷ contents
      ∷ [] in
    let sent_all : written to v.trace
        ≡ written to w.trace ++ copies to (connected s) (join (data_parts a s contents)) =
      rw sent at (send_data-Sent a writes to w contents can.is_loaded) in
    let stream : (consumed c.so.controller_fd t ++ join parts) ++ [] ≡ written to v.trace =
      append-nil (consumed c.so.controller_fd t ++ join parts)
      ∙ rw
          (
            read_before,
            sent_all,
            copies-once to (connected s) (join (data_parts a s contents)) once,
            data_parts_of a b s contents can,
          )
          refl in
    let port : b.ntohs (b.word16 (a.bytes16 (a.htons s.server_port))) % 2 ^ 16 ≡ s.server_port =
      rw (interop.port_back s.server_port can.port_bound) (omega (arith, can.port_bound)) in
    rw port at (
      read_data-Got b (written to v.trace) [] (a.bytes16 (a.htons s.server_port))
        (a.bytes32 (a.htonl (length s.server_ip + 1))) (s.server_ip ++ 0 ∷ [])
        (a.bytes32 (a.htonl s.data_size)) contents t e c memory law
        (data_parts-IsMessage a b s contents interop can) (omega (arith, can.is_whole, fits))
        stream)
