-- ===== src/Tests/PollServer.antt =====
-- The theorems on poll-server/ at concrete inputs.
use scalable_server.Poll.Ending.{poll_loop-Ends}
use scalable_server.Tests.Wire.{stopping-Signalled, stopping}
use scalable_server.Poll.Progress.{Modest}
use scalable_server.Poll.Memory.{announced, poll_recv_and_log-Balanced, held, Balanced}
use scalable_server.Poll.Safety.{run_poll_server-Inv}
use Prim.Native.String.{[]}
use scalable_server.Tests.World.{ok-injective, world-Lawful, world-StdinOpen, world}
use scalable_server.Prelude.{
  sym, ◌^◌, ◌<◌, ◌+◌, ℕ, List, refl, occupied, replicate, some, none, arith, ◌∷◌, ◌≡◌, pos, [],
}
use scalable_server.Poll.Loop.{poll_loop, run_poll_server}
use scalable_server.Poll.State.{
  StateObject, Server, zero_state, get_conn_index, forget_connection, listening, save_connection,
}
use scalable_server.Poll.Setup.{initialize_server, open_poll_server_for_listen, destroy_poll_state}
use scalable_server.Poll.Invariant.{listening-Inv, save_connection-Inv, forget_connection-Inv, Inv}
use scalable_server.Core.Api.{CoreObject}
use scalable_server.Poll.Lifecycle.{
  destroy_poll_state-closes, open_poll_server-Opened, Opened, initialize_server-Initialized,
  Initialized,
}
use scalable_server.Poll.Index.{get_conn_index-IsFirstFree, IsFirstFree}
use scalable_server.Os.{
  Ends, followed_by, closes, ok, recv, ret, fault, no_error, Machine, SockaddrIn,
}
use scalable_server.Poll.Messages.{
  Eager, recv_loop-overflows, received, recv_loop-Received, Received,
}
use scalable_server.Poll.Receive.{poll_recv_and_log, recv_loop}

abbrev address : SockaddrIn
address = record { sin_port = 8080; sin_addr = 1 }

-- The server when it listens, with no client and with one.
abbrev idle : Server
idle = listening (record zero_state { listen_fd = pos 3 })

abbrev one_client : Server
one_client = save_connection (get_conn_index idle.client_fd) 7 address idle

abbrev start : Server → Machine Server
start s = record { trace = []; errno = no_error; st = s }

run_poll_server-Inv_example : Inv (run_poll_server (world 3) 9 (start idle)).1.st
run_poll_server-Inv_example =
    run_poll_server-Inv (world 3) (world-Lawful 3) (world-StdinOpen 3) 9 (start idle)
      (listening-Inv (pos 3))

save_connection-Inv_example : Inv (save_connection (get_conn_index idle.client_fd) 7 address idle)
unfolding listening
save_connection-Inv_example =
    save_connection-Inv idle 7 address (listening-Inv (pos 3)) (omega arith) (omega arith)

forget_connection-Inv_example : Inv (forget_connection 0 one_client)
unfolding listening save_connection get_conn_index
forget_connection-Inv_example =
    forget_connection-Inv one_client 0
      (save_connection-Inv idle 7 address (listening-Inv (pos 3)) (omega arith) (omega arith))
      (omega arith) refl

get_conn_index-IsFirstFree_example :
    IsFirstFree (pos 7 ∷ pos 0 ∷ pos 0 ∷ []) (get_conn_index (pos 7 ∷ pos 0 ∷ pos 0 ∷ []))
unfolding occupied
get_conn_index-IsFirstFree_example =
    get_conn_index-IsFirstFree (pos 7 ∷ pos 0 ∷ pos 0 ∷ []) (omega arith)

recv_loop-Received_example :
    Received
      (world 3)
      7
      0
      (received [])
      (recv_loop (world 3) 9 (pos 7) 4096 7 4 0 (start one_client))
recv_loop-Received_example =
    recv_loop-Received (world 3) 9 (pos 7) 4096 7 4 0 (start one_client) (omega arith) (omega arith)
      (omega arith) (λ z. absurd (omega arith))

eager : Eager (world 8)
eager = record { message = λ h fd. replicate 8 65; delivers = λ h fd. refl; full = λ h fd. refl }

recv_loop-overflows_example :
    (recv_loop (world 8) 12 (pos 7) 4096 10 4 0 (start one_client)).0 ≡ fault
recv_loop-overflows_example =
    recv_loop-overflows (world 8) eager (pos 7) 4096 10 4 (start one_client) (omega arith)
      (omega arith) (omega arith) (omega arith)

abbrev set_up : Machine StateObject
set_up = record { trace = []; errno = no_error; st = zero_state }

open_poll_server-Opened_example :
    Opened (world 3) set_up (open_poll_server_for_listen (world 3) address set_up)
open_poll_server-Opened_example = open_poll_server-Opened (world 3) address set_up

abbrev loaded : Machine (CoreObject StateObject)
loaded = record {
  trace = [];
  errno = no_error;
  st = record { mm = some 4096; log_file = some 4096; listen_addr = address; so = none };
}

initialize_server-Initialized_example :
    Initialized (world 3) loaded (initialize_server (world 3) loaded)
initialize_server-Initialized_example = initialize_server-Initialized (world 3) loaded

destroy_poll_state-closes_example :
    ((destroy_poll_state (world 3) set_up).0 ≡ ret tt)
    × (closes (destroy_poll_state (world 3) set_up).1.trace
        ≡ followed_by (closes []) (pos 0 ∷ pos 0 ∷ pos 0 ∷ pos 0 ∷ pos 0 ∷ pos 0 ∷ []))
destroy_poll_state-closes_example = destroy_poll_state-closes (world 3) set_up

small_message :
    (header : List ℕ)
    → (world 3).answer [] (recv (pos 7) 4) ≡ ok header
    → announced (world 3) (pos 7) header (start one_client) + 1 < 2 ^ 32
small_message header e =
    let same : replicate 3 65 ≡ header = ok-injective _ _ e in rw (sym same) (omega arith)

poll_recv_and_log-Balanced_example :
    Balanced (world 3) (held []) (poll_recv_and_log (world 3) (pos 7) 1 (start one_client))
poll_recv_and_log-Balanced_example =
    poll_recv_and_log-Balanced (world 3) (pos 7) 1 (start one_client) small_message

stopping-Modest : (n : ℕ) → Modest (stopping n)
stopping-Modest n fd header w e = rw (sym (ok-injective _ _ e)) (omega arith)

poll_loop-Ends_example : Ends (poll_loop (stopping 7) 8 (start one_client))
poll_loop-Ends_example =
    poll_loop-Ends (stopping 7) (stopping-Modest 7) 7 (stopping-Signalled 7) 7 (start one_client)
      (omega arith)
