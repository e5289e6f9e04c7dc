-- ===== src/Tests/ClientRuns.antt =====
-- The theorems on client/, and on client and controller, at concrete inputs.
use scalable_server.Os.{no_error, more, ret, no_address, Machine}
use Prim.Native.Nat.{ℕ}
use scalable_server.Prelude.{false, arith, true, refl, [], none, ◌∷◌, ◌≡◌, pos, ℕ, List}
use scalable_server.Client.State.{Client, HandleArgs, zero_state}
use scalable_server.Client.Run.{read_data}
use scalable_server.Client.Util.{read_loop}
use scalable_server.Client.Worker.{exchange}
use scalable_server.Client.Receiving.{consumed, Got, read_loop-stalls}
use scalable_server.Client.Message.{loaded}
use scalable_server.Client.Protocol.{CanSend, send_data-read_data}
use scalable_server.Client.Exchanging.{Exchanged, exchange-Exchanged}
use scalable_server.Controller.Connection.{send_data, send_data_to, send_all, data_parts}
use scalable_server.Controller.Util.{write_fully, write_loop}
use scalable_server.Controller.Writing.{written}
use scalable_server.Tests.ControllerRuns.{start, two_clients}
use scalable_server.Tests.Wire.{
  wire, wire-Allocates, wire-Delivers, wire-Interop, wire-WritesSome, world-WritesSome,
}
use scalable_server.Tests.World.{world}

abbrev idle : Client
idle = record {
  so = record zero_state { controller_fd = pos 6 };
  threads = record { t_ids = none; n_threads = 0; n_processors = pos 0 };
  initialized = true;
  sig_quit = false;
}

abbrev begin : Machine Client
begin = record { trace = []; errno = no_error; st = idle }

read_loop-stalls_example : (read_loop (world 3) 9 (pos 6) 4 4 [] begin).0 ≡ more
read_loop-stalls_example =
    read_loop-stalls (world 3) (pos 6) (λ h n. refl) 9 4 4 begin (omega arith)

-- Port 80, "A" with its NUL, and two bytes.
abbrev message : List ℕ
message = 0 ∷ 80 ∷ 0 ∷ 0 ∷ 0 ∷ 2 ∷ 65 ∷ 0 ∷ 0 ∷ 0 ∷ 0 ∷ 2 ∷ 1 ∷ 2 ∷ []

-- What the controller of Tests.ControllerRuns writes to its client on 7.
abbrev sent : List ℕ
sent = written (pos 7) (send_data (world 3) start).1.trace

can_send : CanSend (world 3) (wire (pos 6) sent) two_clients (1 ∷ 2 ∷ 3 ∷ [])
can_send = record {
  is_loaded = refl;
  is_whole = refl;
  port_bound = omega arith;
  ip_bound = omega arith;
  data_bound = omega arith;
}

sending : send_data (world 3) start ≡ (ret true, (send_data (world 3) start).1)
unfolding send_data send_data_to send_all data_parts write_fully write_loop
sending = refl

send_data-read_data_example :
    (p : ℕ) × (q : ℕ) × Got
      (pos 6)
      sent
      []
      tt
      (loaded idle 80 p (65 ∷ 0 ∷ []) q (1 ∷ 2 ∷ 3 ∷ []))
      (read_data (wire (pos 6) sent) begin)
unfolding consumed written
send_data-read_data_example =
    send_data-read_data (world 3) (wire (pos 6) sent) start (send_data (world 3) start).1
      (1 ∷ 2 ∷ 3 ∷ []) (pos 7) [] no_error idle world-WritesSome (wire-Interop (pos 6) sent)
      (wire-Allocates (pos 6) sent) can_send (omega arith) refl sending (wire-Delivers (pos 6) sent)
      refl

-- Two bytes to send.
abbrev args : HandleArgs
args = record {
  server_addr = no_address;
  contents = record { pointer = 4096; bytes = 1 ∷ 2 ∷ [] };
  data_size = 2;
  thread_id = 0;
  pointer = 8192;
}

exchange-Exchanged_example :
    Exchanged
      (wire (pos 5) (0 ∷ 0 ∷ 0 ∷ 2 ∷ []))
      {S = Client}
      (pos 5)
      (0 ∷ 0 ∷ 0 ∷ 2 ∷ [])
      []
      args
      (0 ∷ 0 ∷ 0 ∷ 2 ∷ [])
      begin
      (exchange (wire (pos 5) (0 ∷ 0 ∷ 0 ∷ 2 ∷ [])) (pos 5) args begin)
unfolding consumed
exchange-Exchanged_example =
    exchange-Exchanged (wire (pos 5) (0 ∷ 0 ∷ 0 ∷ 2 ∷ [])) (pos 5) (0 ∷ 0 ∷ 0 ∷ 2 ∷ [])
      (0 ∷ 0 ∷ 0 ∷ 2 ∷ []) [] args begin (wire-WritesSome (pos 5) (0 ∷ 0 ∷ 0 ∷ 2 ∷ []))
      (wire-Delivers (pos 5) (0 ∷ 0 ∷ 0 ∷ 2 ∷ [])) refl refl
