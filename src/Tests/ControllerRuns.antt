-- ===== src/Tests/ControllerRuns.antt =====
-- The theorems on client-controller/ at concrete inputs.
use scalable_server.Prelude.{
  ◌^◌, ◌<◌, arith, length-replicate, false, refl, some, ◌≡◌, join, replicate, suc, [], ap, pos, ◌∷◌,
}
use Prim.Native.String.{[]}
use scalable_server.Os.{Yields, strtol, no_error, accept, Machine}
use scalable_server.Controller.State.{Controller, StateObject, connected, zero_state}
use scalable_server.Controller.Connection.{send_data, data_parts}
use scalable_server.Controller.Handle.{handle, handle_accept}
use scalable_server.Controller.Util.{parse_port, write_fully}
use scalable_server.Controller.Writing.{Wrote, for_fd, write_fully-Wrote}
use scalable_server.Controller.Sending.{Sent, copies, send_data-Sent}
use scalable_server.Controller.Accepting.{IsValid, Accepted, handle_accept-Accepted}
use scalable_server.Controller.Invariant.{handle-StaysValid, StaysValid}
use scalable_server.Controller.Ports.{or_err, parse_port-port_of, port_of}
use scalable_server.Tests.Wire.{world-WritesSome}
use scalable_server.Tests.World.{world}

-- Two clients, on 7 and 8, for a server at "A" and port 80, with three bytes of data.
abbrev pub two_clients : StateObject
two_clients = record zero_state {
  listen_fd = pos 3;
  server_ip = 65 ∷ [];
  server_port = 80;
  accepted_fds = pos 7 ∷ pos 8 ∷ replicate 498 (pos 0);
  num_conns = 2;
  contents = some (1 ∷ 2 ∷ 3 ∷ []);
  data_pointer = 4096;
  data_size = 3;
}

abbrev pub start : Machine Controller
start = record { trace = []; errno = no_error; st = record { so = two_clients; sig_quit = false } }

two_clients-IsValid : IsValid two_clients
two_clients-IsValid = record {
  fds_length = ap (λ n. suc (suc n)) (length-replicate 498 (pos 0));
  conns_bound = omega arith;
}

write_fully-Wrote_example :
    Wrote
      (world 3)
      {S = Controller}
      (pos 7)
      (for_fd (pos 7) (pos 7) (1 ∷ 2 ∷ []))
      start
      (write_fully (world 3) (pos 7) (1 ∷ 2 ∷ []) start)
write_fully-Wrote_example =
    write_fully-Wrote (world 3) world-WritesSome (pos 7) (pos 7) (1 ∷ 2 ∷ []) start

send_data-Sent_example :
    Sent
      (pos 8)
      (copies
        (pos 8)
        (connected two_clients)
        (join (data_parts (world 3) two_clients (1 ∷ 2 ∷ 3 ∷ []))))
      start
      (send_data (world 3) start)
send_data-Sent_example =
    send_data-Sent (world 3) world-WritesSome (pos 8) start (1 ∷ 2 ∷ 3 ∷ []) refl

handle_accept-Accepted_example :
    Accepted (world 3) ((world 3).answer [] (accept (pos 3))) start (handle_accept (world 3) start)
handle_accept-Accepted_example = handle_accept-Accepted (world 3) start two_clients-IsValid

handle-StaysValid_example : StaysValid (world 3) (handle (world 3) 5 start)
handle-StaysValid_example = handle-StaysValid (world 3) 5 start two_clients-IsValid

-- The string "80".
parse_port-port_of_example :
    ((parse_port (world 3) (56 ∷ 48 ∷ []) start).0
      ≡ or_err (port_of ((world 3).answer [] (strtol (56 ∷ 48 ∷ []))) 2))
    × ((parse_port (world 3) (56 ∷ 48 ∷ []) start).1.st ≡ start.st)
    × Yields (λ port. port < 2 ^ 16) (parse_port (world 3) (56 ∷ 48 ∷ []) start).0
parse_port-port_of_example = parse_port-port_of (world 3) (56 ∷ 48 ∷ []) start
