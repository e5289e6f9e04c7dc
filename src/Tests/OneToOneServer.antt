-- ===== src/Tests/OneToOneServer.antt =====
-- The theorems on one-to-one/ at concrete inputs.
use Prim.Native.String.{[]}
use scalable_server.OneToOne.Message.{send_loop, receive_message, receive_loop}
use scalable_server.Prelude.{arith, pos, ◌∷◌, []}
use scalable_server.Tests.World.{world-Bounded, world}
use scalable_server.OneToOne.State.{zero_state, Server}
use scalable_server.Os.{no_error, Machine}
use scalable_server.OneToOne.Exchange.{
  sent, received, send_loop-Gives, receive_loop-Takes, receive_message-Returns, Takes, Returns,
  Gives,
}

-- The server with a client.
abbrev serving : Machine Server
serving = record {
  trace = [];
  errno = no_error;
  st = record {
    so = record zero_state { listen_fd = pos 3; client_fd = pos 7 };
    self_pipe = (pos 4, pos 5);
  };
}

receive_loop-Takes_example : Takes 5 (received []) (receive_loop (world 3) 6 5 serving)
receive_loop-Takes_example =
    receive_loop-Takes (world 3) (world-Bounded 3) 6 5 serving (omega arith) (omega arith)

send_loop-Gives_example :
    Gives
      (pos 7)
      (0 ∷ 0 ∷ 0 ∷ 5 ∷ [])
      (sent (pos 7) [])
      (send_loop (world 3) 5 (0 ∷ 0 ∷ 0 ∷ 5 ∷ []) serving)
send_loop-Gives_example = send_loop-Gives (world 3) 5 (0 ∷ 0 ∷ 0 ∷ 5 ∷ []) serving (omega arith)

receive_message-Returns_example : Returns (receive_message (world 3) serving)
receive_message-Returns_example = receive_message-Returns (world 3) (world-Bounded 3) serving
