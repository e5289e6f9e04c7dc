-- ===== src/Tests/ProcessServer.antt =====
-- The theorems on process-server/ at concrete inputs.
use scalable_server.Process.ChildEnding.{Modest, child_loop-Ends}
use scalable_server.Process.Child.{c_receive_and_handle_messages, zero_child}
use scalable_server.Process.Ending.{parent_loop-Ends}
use scalable_server.Tests.Wire.{stopping-Signalled, stopping}
use scalable_server.Process.Closing.{semaphores_gone, p_destroy_parent_state-Does, Does}
use scalable_server.Process.Invariant.{Inv}
use scalable_server.Process.Safety.{p_run_poll_loop-Inv}
use scalable_server.Tests.World.{ok-injective, world-Lawful, world-StdinOpen, world}
use scalable_server.Process.Parent.{poll_loop, p_run_poll_loop}
use scalable_server.Process.Teardown.{p_destroy_parent_state}
use scalable_server.Process.Setup.{zero_parent, watch}
use scalable_server.Process.State.{Child, StateObject, disable, Parent, ParentStruct, reenable}
use scalable_server.Os.{
  close, free, kill, sigint, waitpid, Ends, no_error, no_pollfd, Pollfd, Machine,
}
use scalable_server.Process.Disable.{reenable-disable, NotDisabled}
use scalable_server.Prelude.{
  ◌++◌, sym, ℕ, none, map, some, zero, refl, suc, arith, true, negsuc, ◌∷◌, ◌≡◌, [], pos, occupied,
  List,
}

-- The parent as it starts to listen.
abbrev idle : ParentStruct
idle = watch 1 (pos 4) (watch 0 (pos 3) zero_parent)

abbrev start : Machine Parent
start = record {
  trace = [];
  errno = no_error;
  st = record {
    domain_fds = (pos 0, pos 7);
    c_to_p_pipe_fds = (pos 4, pos 0);
    parent = idle;
    gogo_process = true;
  };
}

idle-Inv : Inv idle
unfolding occupied
idle-Inv = record { pollfds_len = refl; counted = refl; listens = refl }

p_run_poll_loop-Inv_example : Inv (p_run_poll_loop (world 3) 9 start).1.st.parent
p_run_poll_loop-Inv_example =
    p_run_poll_loop-Inv (world 3) (world-Lawful 3) (world-StdinOpen 3) 9 start idle-Inv

-- Two clients, the second one disabled.
abbrev two_clients : List Pollfd
two_clients =
    record no_pollfd { fd = pos 3 }
    ∷ record no_pollfd { fd = pos 4 }
    ∷ record no_pollfd { fd = pos 7 }
    ∷ record no_pollfd { fd = negsuc 7 }
    ∷ []

seven_enabled : NotDisabled (pos 7) two_clients
seven_enabled zero = ground arith
seven_enabled (suc zero) = ground arith
seven_enabled (suc (suc zero)) = ground arith
seven_enabled (suc (suc (suc zero))) = ground arith
seven_enabled (suc (suc (suc (suc j)))) = ground arith

reenable-disable_example : reenable (pos 7) (disable 2 two_clients) ≡ two_clients
reenable-disable_example = reenable-disable two_clients 0 (omega arith) seven_enabled

-- The parent's process, with all children forked.
abbrev forked : Machine StateObject
forked = record {
  trace = [];
  errno = no_error;
  st = record {
    child_pids = 101 ∷ 102 ∷ 103 ∷ 104 ∷ 105 ∷ 106 ∷ 107 ∷ 108 ∷ [];
    domain_fds = (pos 0, pos 7);
    c_to_p_pipe_fds = (pos 4, pos 0);
    parent = some idle;
    child = none;
    struct_pointer = 4096;
  };
}

p_destroy_parent_state-Does_example :
    Does
      (map (λ pid. kill pid sigint) forked.st.child_pids
        ++ (map waitpid forked.st.child_pids
            ++ (close (pos 4)
                ∷ close (pos 7)
                ∷ (map (λ p. close p.fd) idle.pollfds ++ (free 4096 ∷ semaphores_gone)))))
      forked
      (p_destroy_parent_state (world 3) idle forked)
p_destroy_parent_state-Does_example = p_destroy_parent_state-Does (world 3) idle forked

parent_loop-Ends_example : Ends (poll_loop (stopping 7) 8 start)
parent_loop-Ends_example =
    parent_loop-Ends (stopping 7) 7 (stopping-Signalled 7) 7 start (omega arith)

abbrev child_start : Machine Child
child_start = record {
  trace = [];
  errno = no_error;
  st = record {
    domain_fds = (pos 6, pos 0);
    c_to_p_pipe_fds = (pos 0, pos 5);
    child = zero_child;
    gogo_process = true;
  };
}

stopping-Modest : (n : ℕ) → Modest (stopping n)
stopping-Modest n h fd header e = rw (sym (ok-injective _ _ e)) (omega arith)

child_loop-Ends_example : Ends (c_receive_and_handle_messages (stopping 7) 8 child_start)
child_loop-Ends_example =
    child_loop-Ends (stopping 7) (stopping-Modest 7) 7 (stopping-Signalled 7) 7 child_start
      (omega arith)
