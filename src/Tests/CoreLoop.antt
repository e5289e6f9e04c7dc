-- ===== src/Tests/CoreLoop.antt =====
-- The theorem on core/ at the poll server's library.
use scalable_server.Poll.State.{StateObject}
use scalable_server.Poll.Lifecycle.{poll_api-ReturnsStates}
use scalable_server.Core.Lifecycle.{core_loop-eq-life, life}
use Prim.Native.String.{[]}
use scalable_server.Prelude.{none, ◌≡◌, some, true, []}
use scalable_server.Tests.World.{world}
use scalable_server.Core.Api.{ServerStates, CoreObject}
use scalable_server.Poll.Setup.{poll_api}
use scalable_server.Core.Run.{core_loop}
use scalable_server.Os.{no_address, no_error, Machine}

abbrev loaded : Machine (CoreObject StateObject)
loaded = record {
  trace = [];
  errno = no_error;
  st = record { mm = some 4096; log_file = some 4096; listen_addr = no_address; so = none };
}

core_loop-eq-life_example :
    core_loop (poll_api (world 3) 9) 4 ServerStates.initialize_server true loaded
    ≡ life (poll_api (world 3) 9) loaded
core_loop-eq-life_example =
    core_loop-eq-life (poll_api (world 3) 9) (poll_api-ReturnsStates (world 3) 9) 0 loaded
