-- ===== src/Controller/Ending.antt =====
-- The controller's loop (client-controller/src/handle.c) ends once a signal comes.
use scalable_server.Controller.State.{Controller}
use Prim.Native.Nat.{suc, ℕ}
use scalable_server.Prelude.{suc, ℕ}
