-- ===== src/Process/Teardown.antt =====
-- The teardown of process-server/src/setup_teardown.c, and process-server/src/api_functions.c.
use scalable_server.Process.Setup.{run_process_server, setup_process_server, close_semaphores}
use scalable_server.Process.Parent.{close_fd_report_undefined_error}
use scalable_server.Core.Api.{on_so, ServerStates, ApiFunctions, CoreObject}
use scalable_server.Process.State.{StateObject, ParentStruct, ChildStruct}
use Prim.Native.Nat.{ℕ}
use scalable_server.Prelude.{none, [], some, ◌∷◌, ℕ, List}
use scalable_server.Os.{
  free, sigint, ignore, waitpid, kill, attempt, get, ◌>>◌, call, ◌>>=◌, pure, Pollfd, M, Platform,
}

module _ (os : Platform) where
  -- The loop that sends SIGINT to each child.
  unfoldable pub kill_children : {S : Type 0} → List ℕ → M S (Unit {0})
  kill_children [] = pure tt
  kill_children (pid ∷ pids) = (call os (kill pid sigint) >>= ignore) >>= λ _. kill_children pids

  -- The loop that waits for each child.
  unfoldable pub wait_for_children : {S : Type 0} → List ℕ → M S (Unit {0})
  wait_for_children [] = pure tt
  wait_for_children (pid ∷ pids) =
      (call os (waitpid pid) >>= ignore) >>= λ _. wait_for_children pids

  -- The loop over the pollfds.
  unfoldable pub close_pollfds : {S : Type 0} → List Pollfd → M S (Unit {0})
  close_pollfds [] = pure tt
  close_pollfds (p ∷ ps) = close_fd_report_undefined_error os p.fd >>= λ _. close_pollfds ps

  unfoldable pub p_destroy_parent_state : ParentStruct → M StateObject (Unit {0})
  p_destroy_parent_state parent = do
    so ← get
    kill_children so.child_pids
    wait_for_children so.child_pids
    close_fd_report_undefined_error os so.c_to_p_pipe_fds.0
    close_fd_report_undefined_error os so.domain_fds.1
    close_pollfds parent.pollfds
    call os (free so.struct_pointer)
    close_semaphores os

  unfoldable pub c_destroy_child_state : ChildStruct → M StateObject (Unit {0})
  c_destroy_child_state child = do
    so ← get
    close_fd_report_undefined_error os so.c_to_p_pipe_fds.1
    close_fd_report_undefined_error os so.domain_fds.0
    call os (free so.struct_pointer)

  unfoldable pub destroy_process_state : M StateObject (Unit {0})
  destroy_process_state = do
    so ← get
    elim so.parent [
      | some parent ↦ p_destroy_parent_state parent
      | none ↦ elim so.child [ some child ↦ c_destroy_child_state child | none ↦ pure tt ]
    ]

  unfoldable pub initialize_server : M (CoreObject StateObject) ServerStates
  initialize_server = do
    set_up ← attempt (setup_process_server os)
    elim set_up [ none ↦ pure ServerStates.error | some _ ↦ pure ServerStates.run_server ]

  unfoldable pub run_server : ℕ → M (CoreObject StateObject) ServerStates
  run_server rounds = do
    finished ← attempt (on_so (run_process_server os rounds))
    elim finished [ none ↦ pure ServerStates.error | some _ ↦ pure ServerStates.close_server ]

  unfoldable pub close_server : M (CoreObject StateObject) ServerStates
  close_server = do on_so destroy_process_state; pure ServerStates.exit

  -- The library as the core loads it, its loops given `rounds`.
  unfoldable pub process_api : ℕ → ApiFunctions StateObject
  process_api rounds = record {
    initialize = initialize_server;
    run = run_server rounds;
    close = close_server;
  }
