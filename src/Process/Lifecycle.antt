-- ===== src/Process/Lifecycle.antt =====
-- The process server as a library of the core.
use scalable_server.Core.Lifecycle.{ReturnsStates}
use scalable_server.Prelude.{arith, ℕ}
use Prim.Native.Nat.{ℕ}
use scalable_server.Process.Teardown.{close_server, run_server, initialize_server, process_api}
use scalable_server.Os.{Platform}

module _ (os : Platform) where
  -- The process server returns only the states that api_functions.h documents, in the parent and in the
  -- children.
  pub process_api-ReturnsStates : (rounds : ℕ) → ReturnsStates (process_api os rounds)
  unfolding process_api initialize_server run_server close_server
  process_api-ReturnsStates rounds = record {
    initialize_states = λ w s h. ground arith;
    run_states = λ w s h. ground arith;
    close_states = λ w s h. ground arith;
  }
